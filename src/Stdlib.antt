-- ===== src/Stdlib.antt =====
-- What the sources use of the C and C++ standard libraries.
pub mod Stoi
pub mod Hex
