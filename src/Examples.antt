-- ===== src/Examples.antt =====
-- The theorems at concrete inputs: a JSON library of plain values, configurations of a sender and of
-- receivers, and a map of resources.
pub mod Values
pub mod Configs
mod Readers
mod Codecs
mod Resources
mod Nodes
pub mod Connections
pub mod Sdp
mod Streams
pub mod Written
mod Plugins
mod Elements
mod Properties
mod TransportFiles
