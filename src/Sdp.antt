-- ===== src/Sdp.antt =====
-- cpp/libs/bisect_sdp: clocks, the settings of a session, their reader and their builder.
pub mod Fmt
pub mod Mac
pub mod Clocks
pub mod Settings
pub mod Reader
