-- ===== src/Conf.antt =====
-- The configuration tree (phl_conf_host.c, phl_conf_path.c): how a request is matched to a host and a path.
pub mod Path
pub mod Host
