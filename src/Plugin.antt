-- ===== src/Plugin.antt =====
-- cpp/libs/gst_nmos_plugins/src: the GStreamer elements that send and receive streams of a node.
pub mod Bins
pub mod Params
pub mod Fields
pub mod Configs
pub mod Sender
pub mod Properties
pub mod VideoReceiver
pub mod AudioReceiver
