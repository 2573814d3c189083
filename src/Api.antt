-- ===== src/Api.antt =====
-- api/: the router and the handlers of the HTTP interface.
pub mod Router
pub mod KvHandler
pub mod Watch
pub mod Cluster
