-- ===== src/Request.antt =====
-- The life of a request (phl_request.c): its state, the body it receives, the steps that it goes
-- through and the loop that runs them.
pub mod State
pub mod Body
pub mod Filters
pub mod Steps
pub mod Response
pub mod Run
pub mod Closing
