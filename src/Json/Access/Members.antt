-- ===== src/Json/Access/Members.antt =====
-- The readers of json.h at optional members.
use nmos_sender_receiver_fra.Prelude.{
  String, ◌≡◌, refl, inl, inr, true, false, Option, none, some, Bool-cases,
}
use nmos_sender_receiver_fra.Expected.{
  Expected, MaybeOk, member_not_found, wrong_type, ok, unexpected,
}
use nmos_sender_receiver_fra.Json.Api.{JsonApi}
use nmos_sender_receiver_fra.Json.Access.{
  Readable, find, get_as, found, convert, assigned_if, assigned_or_value, assign_if,
  assign_if_or_value,
}
use nmos_sender_receiver_fra.Json.Access.Laws.{IsSound}

abbrev pub option_of {ℓ} : {A : Type ℓ} → Expected A → Option A
option_of (ok a) = some a
option_of _ = none

abbrev pub or_default {ℓ} : {A : Type ℓ} → A → Option A → A
or_default d none = d
or_default d (some a) = a

module _ (J : JsonApi) {A : Type 0} (r : Readable J A) where
  open J use {Json, find_member}

  -- The value of a key, if there is one of the right type.
  abbrev pub member : Json → String → Option A
  member j key = option_of (find J r j key)

  module _ (sound : IsSound J r) where
    assigned_if-member :
        (key : String) (o : Option Json)
        → (e : MaybeOk) × (assigned_if J r some key none o ≡ ok (option_of (found J r key o), e))
    unfolding assigned_if convert get_as
    assigned_if-member key none = (unexpected (member_not_found key), refl)
    assigned_if-member key (some v) = elim (Bool-cases (r.is_valid v)) [
      | inl h ↦ let (a, e) = sound v h in (ok tt, rw (h, e))
      | inr h ↦ (unexpected wrong_type, rw h)
    ]

    -- An optional member that is assigned to from an empty one.
    pub assign_if-member :
        (j : Json) (key : String)
        → (e : MaybeOk) × (assign_if J r some j key none ≡ ok (member j key, e))
    unfolding assign_if find
    assign_if-member j key = assigned_if-member key (find_member j key)

  module _ {B : Type 0} (f : A → B) (j : Json) (key : String) (old value : B) where
    pub assign_if_or_value-absent :
        find_member j key ≡ none → assign_if_or_value J r f j key old value ≡ ok (value, ok tt)
    unfolding assign_if_or_value
    assign_if_or_value-absent h = rw (h, assign_if_or_value)

    pub assign_if_or_value-mistyped :
        (v : Json)
        → find_member j key ≡ some v
        → r.is_valid v ≡ false
        → assign_if_or_value J r f j key old value ≡ ok (old, unexpected wrong_type)
    unfolding assign_if_or_value
    assign_if_or_value-mistyped v h b = rw (h, assign_if_or_value, b)

    pub assign_if_or_value-found :
        (v : Json) (a : A)
        → find_member j key ≡ some v
        → r.is_valid v ≡ true
        → r.get v ≡ ok a
        → assign_if_or_value J r f j key old value ≡ ok (f a, ok tt)
    unfolding assign_if_or_value
    assign_if_or_value-found v a h b e = rw (h, assign_if_or_value, b, e)

  pub member-absent : (j : Json) (key : String) → find_member j key ≡ none → member j key ≡ none
  unfolding find
  member-absent j key h = rw (h, find)

  pub member-found :
      (j : Json) (key : String) (v : Json) (a : A)
      → find_member j key ≡ some v
      → r.is_valid v ≡ true
      → r.get v ≡ ok a
      → member j key ≡ some a
  unfolding find get_as
  member-found j key v a h b e = rw (h, find, b, e)

  module _ (sound : IsSound J r) {B : Type 0} (f : A → B) (old value : B) where
    assigned_or_value-returns :
        (o : Option Json) → (p : B × MaybeOk) × (assigned_or_value J r f old value o ≡ ok p)
    unfolding assigned_or_value convert
    assigned_or_value-returns none = ((value, ok tt), refl)
    assigned_or_value-returns (some v) = elim (Bool-cases (r.is_valid v)) [
      | inl h ↦ let (a, e) = sound v h in ((f a, ok tt), rw (h, e))
      | inr h ↦ ((old, unexpected wrong_type), rw h)
    ]

    pub assign_if_or_value-returns :
        (j : Json) (key : String)
        → (p : B × MaybeOk) × (assign_if_or_value J r f j key old value ≡ ok p)
    unfolding assign_if_or_value
    assign_if_or_value-returns j key = assigned_or_value-returns (find_member j key)
