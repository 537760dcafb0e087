-- ===== src/Json/Select/Outcome.antt =====
-- What selecting can give: a value, an error or an exception.
use nmos_sender_receiver_fra.Prelude.{
  ℕ, ◌^◌, ◌<◌, String, refl, inl, inr, Option, none, some, List, [], ◌∷◌, str_eq, Bool-cases,
  get_elem?,
}
use nmos_sender_receiver_fra.Expected.{Safe, is_ok, is_error, Safe-bind, Safe-enforce}
use nmos_sender_receiver_fra.Expected.Caught.{
  Caught, caught_ok, caught_error, caught_exception, Caught-bind, Safe-Caught, Caught-if,
}
use nmos_sender_receiver_fra.Json.Api.{JsonApi, Converts}
use nmos_sender_receiver_fra.Json.Access.{Readable, read_text, read_word, read_json, get_as}
use nmos_sender_receiver_fra.Json.Access.Laws.{IsSound-read_text, find-Safe}
use nmos_sender_receiver_fra.Json.Select.{
  Mapper, element, item_at, index, named_value, name_value, select,
}

module _ (J : JsonApi) where
  open J use {Json, is_array, elements}

  -- A mapper that returns or throws.
  abbrev pub IsTotal : Mapper J → Type 0
  IsTotal m = (j : Json) → Caught (λ _. Unit {0}) (m j)

  abbrev pub AreTotal : List (Mapper J) → Type 0
  AreTotal [] = Unit
  AreTotal (m ∷ ms) = IsTotal m × AreTotal ms

  pub element-IsTotal : (name : String) → IsTotal (element J name)
  unfolding element
  element-IsTotal name j = Safe-Caught (find-Safe J (read_json J) (λ x _. (x, refl)) j name)

  item_at-Caught : (j : Json) (o : Option Json) → Caught (λ _. Unit {0}) (item_at J j o)
  unfolding item_at
  item_at-Caught j none = caught_error
  item_at-Caught j (some v) = Caught-if (is_array j) (caught_ok tt) caught_exception

  pub index-IsTotal : (i : ℕ) → IsTotal (index J i)
  unfolding index
  index-IsTotal i j = item_at-Caught j (get_elem? (elements j) i)

  module _ (c : Converts J) where
    named_value-Safe : (name : String) (vs : List Json) → Safe (λ _. Unit) (named_value J name vs)
    unfolding named_value
    named_value-Safe name [] = is_error
    named_value-Safe name (v ∷ vs) =
        Safe-bind _ (find-Safe J (read_text J) (IsSound-read_text J c) v "name") λ actual _.
          elim (Bool-cases (str_eq actual name)) [
            | inl e ↦ rw e (find-Safe J (read_json J) (λ x _. (x, refl)) v "value")
            | inr e ↦ rw e (named_value-Safe name vs)
          ]

    pub name_value-IsTotal : (name : String) → IsTotal (name_value J name)
    unfolding name_value
    name_value-IsTotal name j =
        Safe-Caught
          (Safe-bind _ (Safe-enforce (is_array j) _) λ _ _. named_value-Safe name (elements j))

    -- A word that is read fits its width.
    pub get_as_word-Safe : (w : ℕ) (j : Json) → Safe (λ v. v < 2 ^ w) (get_as J (read_word J w) j)
    unfolding get_as
    get_as_word-Safe w j =
        Safe-bind _ (Safe-enforce (J.is_number j) _)
          λ _ h. let (v, e, lt) = c.word w j h in rw e (is_ok lt)

  pub select-Caught :
      {A : Type 0} {P : A → Type 0} (r : Readable J A) (ms : List (Mapper J))
      → ((j : Json) → Safe P (get_as J r j))
      → AreTotal ms
      → (j : Json) → Caught P (select J r j ms)
  unfolding select
  select-Caught r [] read h j = Safe-Caught (read j)
  select-Caught r (m ∷ ms) read h j =
      Caught-bind _ (h.0 j) λ level _. select-Caught r ms read h.1 level
