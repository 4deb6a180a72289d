-- ===== src/Limit/Setup/Tests.antt =====
-- The layout of the shared memory of phl_limit_req.c for a concrete configuration.
use phorklift.Limit.Setup.{Sizes}

abbrev sizes : Sizes
sizes = record { shared = 64; bucket = 8; node = 32 }
