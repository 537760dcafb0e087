-- ===== src/Json/Api.antt =====
-- The interface of nlohmann::json that json.h and the serialization use. The library is not part of
-- the repository, so it is a parameter: its values, its tests of a value's type and its conversions.
use nmos_sender_receiver_fra.Prelude.{
  ℕ, ◌^◌, ◌<◌, String, ◌≡◌, Bool, true, false, Option, some, List,
}
use nmos_sender_receiver_fra.Prelude.Int.{ℤ}

pub record JsonApi : Type 1 where
  -- nlohmann::json, and `float`
  pub Json : Type 0
  pub Float : Type 0
  -- j.find(key): none is end(), also where `j` is no object
  pub find_member : Json → String → Option Json
  pub is_null : Json → Bool
  pub is_number : Json → Bool
  pub is_string : Json → Bool
  pub is_boolean : Json → Bool
  pub is_array : Json → Bool
  -- j.get<T>(): none is a type_error exception
  pub get_number : Json → Option ℤ
  -- get<uint8_t>(), get<uint16_t>(): of 8 and 16 bits
  pub get_word : ℕ → Json → Option ℕ
  pub get_float : Json → Option Float
  pub get_string : Json → Option String
  pub get_boolean : Json → Option Bool
  -- the elements of an array, of an object or of a single value, for range-for, size() and j[i]
  pub elements : Json → List Json

-- The documented behaviour that the code relies on: a value that passes the test for a type is
-- converted to that type with no exception, and null is no string.
pub record Converts (J : JsonApi) : Type 0 where
  pub number : (j : J.Json) → J.is_number j ≡ true → (v : ℤ) × (J.get_number j ≡ some v)
  pub word :
      (w : ℕ) (j : J.Json)
      → J.is_number j ≡ true
      → (v : ℕ) × (J.get_word w j ≡ some v) × (v < 2 ^ w)
  pub float : (j : J.Json) → J.is_number j ≡ true → (v : J.Float) × (J.get_float j ≡ some v)
  pub text : (j : J.Json) → J.is_string j ≡ true → (v : String) × (J.get_string j ≡ some v)
  pub boolean : (j : J.Json) → J.is_boolean j ≡ true → (v : Bool) × (J.get_boolean j ≡ some v)
  pub null_text : (j : J.Json) → J.is_null j ≡ true → J.is_string j ≡ false
