-- ===== src/Serialization.antt =====
-- cpp/libs/ossrf_nmos_api/lib/src/serialization: the JSON configuration of devices, receivers and
-- senders read into the records of Configuration.antt.
pub mod Common
pub mod Receiver
pub mod SenderId
pub mod Sender
