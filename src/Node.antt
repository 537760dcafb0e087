-- ===== src/Node.antt =====
-- The node of a client: the controller over nmos-cpp's store of resources, the operations of nmos_t on
-- it, and the client.
pub mod Action
pub mod Api
pub mod Controller
pub mod Impl
pub mod Client
pub mod Transport
pub mod Update
pub mod TransportFile
pub mod Make
pub mod Utils
