-- ===== src/Stream.antt =====
-- cpp/libs/ossrf_gstreamer_api/lib/src: what the GStreamer senders and receivers read of a configuration.
pub mod Sender
pub mod Receiver
