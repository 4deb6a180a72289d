-- ===== src/Upstream.antt =====
-- Upstream servers (phl_upstream.c, phl_upstream_content.c, phl_upstream_healthcheck.c, loadbalances/,
-- modules/phl_proxy.c): the health checks of their addresses, the connections to them, how one of
-- them is picked, and how a request is passed on and tried again.
pub mod Failure
pub mod Healthcheck
pub mod Pool
pub mod Stream
pub mod Random
pub mod Hash
pub mod Retry
pub mod Content
pub mod Proxy
pub mod Resolve
mod Tests
