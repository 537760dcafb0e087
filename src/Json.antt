-- ===== src/Json.antt =====
-- cpp/libs/bisect_json/lib/include/bisect/json/json.h: typed access to JSON values.
pub mod Api
pub mod Access
pub mod Select
