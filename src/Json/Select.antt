-- ===== src/Json/Select.antt =====
-- json.h, namespace selectors: paths into a JSON value.
pub mod Named
pub mod Outcome
use nmos_sender_receiver_fra.Prelude.{
  ℕ, String, Option, none, some, List, [], ◌∷◌, str_eq, if◌then◌else◌, get_elem?,
}
use nmos_sender_receiver_fra.Expected.{
  Expected, index_too_large, not_an_array, name_not_found, ok, unexpected, thrown, ◌>>=◌, ◌>>◌,
  enforce,
}
use nmos_sender_receiver_fra.Json.Api.{JsonApi}
use nmos_sender_receiver_fra.Json.Access.{Readable, read_text, read_json, get_as, find}

module _ (J : JsonApi) where
  open J use {Json, is_array, elements}

  -- mapper_t
  abbrev pub Mapper : Type 0
  Mapper = Json → Expected Json

  unfoldable pub element : String → Mapper
  element name j = find J (read_json J) j name

  -- The element; operator[] of an object or of a single value throws.
  item_at : Json → Option Json → Expected Json
  item_at j none = unexpected index_too_large
  item_at j (some v) = if is_array j then ok v else thrown

  unfoldable pub index : ℕ → Mapper
  unfolding item_at
  index idx j = item_at j (get_elem? (elements j) idx)

  -- The loop over the elements.
  named_value : String → List Json → Expected Json
  named_value name [] = unexpected name_not_found
  named_value name (v ∷ vs) =
      let rest = named_value name vs in
      do
        actual_name ← find J (read_text J) v "name"
        if str_eq actual_name name then find J (read_json J) v "value" else rest

  unfoldable pub name_value : String → Mapper
  unfolding named_value
  name_value name j = do enforce (is_array j) not_an_array; named_value name (elements j)

  -- do_select, over the list of the matchers.
  unfoldable pub select : {A : Type 0} → Readable J A → Json → List Mapper → Expected A
  select r j [] = get_as J r j
  select r j (m ∷ ms) = do level ← m j; select r level ms
