-- ===== src/Context.antt =====
-- cpp/libs/ossrf_nmos_api/lib/src/context and resources: the senders and receivers that a client
-- has added, and the events of the NMOS node that reach them.
pub mod ResourceMap
pub mod Resource
pub mod EventHandler
