-- ===== src/Json/Select/Named.antt =====
-- The selector of a value by its name.
use nmos_sender_receiver_fra.Prelude.{
  String, ◌≡◌, refl, true, false, List, [], ◌∷◌, ◌++◌, str_eq, eq_refl,
}
use nmos_sender_receiver_fra.Expected.{name_not_found, ok, unexpected}
use nmos_sender_receiver_fra.Prelude.{
  String, ◌≡◌, refl, true, false, List, [], ◌∷◌, ◌++◌, str_eq, eq_refl,
}
use nmos_sender_receiver_fra.Expected.{name_not_found, ok, unexpected}
use nmos_sender_receiver_fra.Json.Api.{JsonApi}
use nmos_sender_receiver_fra.Json.Access.{read_text, read_json, find}
use nmos_sender_receiver_fra.Json.Select.{named_value, name_value}

module _ (J : JsonApi) where
  open J use {Json, is_array, elements}

  -- Each of the values has a text under "name", and it is another one.
  abbrev pub AllOther : String → List Json → Type 0
  AllOther name [] = Unit
  AllOther name (v ∷ vs) =
      ((other_name : String) × (find J (read_text J) v "name" ≡ ok other_name)
        × (str_eq other_name name ≡ false))
      × AllOther name vs

  named_value-first :
      (name : String) (before after : List Json) (v : Json)
      → AllOther name before
      → find J (read_text J) v "name" ≡ ok name
      → named_value J name (before ++ v ∷ after) ≡ find J (read_json J) v "value"
  unfolding named_value
  named_value-first name [] after v h e = rw (e, eq_refl name)
  named_value-first name (x ∷ xs) after v ((n, p, q), h) e =
      rw (p, q) (named_value-first name xs after v h e)

  named_value-absent :
      (name : String) (l : List Json)
      → AllOther name l
      → named_value J name l ≡ unexpected name_not_found
  unfolding named_value
  named_value-absent name [] h = refl
  named_value-absent name (x ∷ xs) ((n, p, q), h) = rw (p, q) (named_value-absent name xs h)

  -- Of an array whose elements have names up to one of the name, `name_value` selects the "value" of
  -- that one; any later elements of the same name are not looked at.
  pub name_value-first :
      (name : String) (j v : Json) (before after : List Json)
      → is_array j ≡ true
      → elements j ≡ before ++ v ∷ after
      → AllOther name before
      → find J (read_text J) v "name" ≡ ok name
      → name_value J name j ≡ find J (read_json J) v "value"
  unfolding name_value
  name_value-first name j v before after a l h e =
      rw (a, l) (named_value-first name before after v h e)

  -- Of an array whose elements all have other names it selects nothing, and returns an error.
  pub name_value-absent :
      (name : String) (j : Json)
      → is_array j ≡ true
      → AllOther name (elements j)
      → name_value J name j ≡ unexpected name_not_found
  unfolding name_value
  name_value-absent name j a h = rw a (named_value-absent name (elements j) h)
