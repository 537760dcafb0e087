-- ===== src/Json/Access/Laws.antt =====
-- What the readers of json.h return, for every value.
use nmos_sender_receiver_fra.Prelude.{
  ℕ, String, ◌≡◌, refl, ◌↔◌, inl, inr, true, false, Option, none, some, arith, Bool-cases,
}
use nmos_sender_receiver_fra.Expected.{
  Expected, MaybeOk, Safe, is_ok, is_error, member_not_found, wrong_type, ok, unexpected, thrown,
  undefined, Returns, returns, Safe-bind, Safe-enforce, Safe-map,
}
use nmos_sender_receiver_fra.Json.Api.{JsonApi, Converts}
use nmos_sender_receiver_fra.Json.Access.{
  assign_if, assign_if_or, assign_if_or_value, assigned_if, assigned_or, assigned_or_value, found,
  Readable, read_text, read_boolean, read_int, read_word, read_float, read_json, get_as, find,
  convert,
}

module _ (J : JsonApi) where
  open J use {Json, find_member, is_null, is_string}

  -- A value that `is_valid` accepts is converted with no exception.
  abbrev pub IsSound : {A : Type 0} → Readable J A → Type 0
  IsSound {A} r = (j : Json) → r.is_valid j ≡ true → (a : A) × (r.get j ≡ ok a)

  module _ (c : Converts J) where
    pub IsSound-read_text : IsSound (read_text J)
    IsSound-read_text j h = let (s, e) = c.text j (ground arith) in (s, rw e)

    pub IsSound-read_boolean : IsSound (read_boolean J)
    IsSound-read_boolean j h = let (s, e) = c.boolean j h in (s, rw e)

    pub IsSound-read_int : IsSound (read_int J)
    IsSound-read_int j h = let (s, e) = c.number j h in (s, rw e)

    pub IsSound-read_word : (w : ℕ) → IsSound (read_word J w)
    IsSound-read_word w j h = let (s, e, _) = c.word w j h in (s, rw e)

    pub IsSound-read_float : IsSound (read_float J)
    IsSound-read_float j h = let (s, e) = c.float j h in (s, rw e)

    pub IsSound-read_json : IsSound (read_json J)
    IsSound-read_json j h = (j, refl)

  module _ {A : Type 0} (r : Readable J A) where
    pub get_as-Safe : IsSound r → (j : Json) → Safe (λ a. r.get j ≡ ok a) (get_as J r j)
    unfolding get_as
    get_as-Safe sound j =
        Safe-bind _ (Safe-enforce (r.is_valid j) _)
          λ _ h. let (a, e) = sound j h in rw e (is_ok refl)

    pub found-Safe :
        IsSound r → (key : String) (o : Option Json) → Safe (λ _. Unit) (found J r key o)
    found-Safe sound key none = is_error
    found-Safe sound key (some v) = Safe-map (λ a _. tt) (get_as-Safe sound v)

    pub find-Safe : IsSound r → (j : Json) (key : String) → Safe (λ _. Unit) (find J r j key)
    unfolding find
    find-Safe sound j key = found-Safe sound key (find_member j key)

    found_lem :
        (key : String) (o : Option Json) (a : A)
        → (found J r key o ≡ ok a)
          ↔ (v : Json) × (o ≡ some v) × (r.is_valid v ≡ true) × (r.get v ≡ ok a)
    unfolding get_as
    found_lem key none a = (λ h. cc, λ (v, e, _, _). cc)
    found_lem key (some v) a = elim (Bool-cases (r.is_valid v)) [
      | inl e ↦ rw e (λ h. (v, refl, e, h), λ (w, p, _, q). cc)
      | inr e ↦ rw e (λ h. cc, λ (w, p, q, _). cc)
    ]

    -- `find` returns a value exactly if the key has a value of the right type, and then that value.
    pub find_lem :
        (j : Json) (key : String) (a : A)
        → (find J r j key ≡ ok a)
          ↔ ((v : Json) × (find_member j key ≡ some v) × (r.is_valid v ≡ true) × (r.get v ≡ ok a))
    unfolding find
    find_lem j key a = found_lem key (find_member j key) a

    -- The member's value after an assignment and what the assignment returned, `p`, for the value `o`
    -- of the key: `missing` without one, and `wrong` if it has the wrong type.
    pub data Assigned {B : Type 0} (f : A → B) (o : Option Json) (missing wrong p : B × MaybeOk)
        : Type 0 where
      absent : o ≡ none → p ≡ missing → Assigned f o missing wrong p
      converted :
          (v : Json) (a : A)
          → o ≡ some v
          → r.is_valid v ≡ true
          → r.get v ≡ ok a
          → p ≡ (f a, ok tt)
          → Assigned f o missing wrong p
      mistyped :
          (v : Json) → o ≡ some v → r.is_valid v ≡ false → p ≡ wrong → Assigned f o missing wrong p

    module _ (sound : IsSound r) {B : Type 0} (f : A → B) where
      convert-Safe :
          (missing : B × MaybeOk) (wrong : B) (v : Json)
          → Safe
              (Assigned f (some v) missing (wrong, unexpected wrong_type))
              (convert J r f wrong v)
      unfolding convert
      convert-Safe missing wrong v = elim (Bool-cases (r.is_valid v)) [
        | inl h ↦ let (a, e) = sound v h in rw (h, e) (is_ok (converted v a refl h e refl))
        | inr h ↦ rw h (is_ok (mistyped v refl h refl))
      ]

      assigned_if-Safe :
          (name : String) (old : B) (o : Option Json)
          → Safe
              (Assigned f o (old, unexpected (member_not_found name)) (old, unexpected wrong_type))
              (assigned_if J r f name old o)
      unfolding assigned_if
      assigned_if-Safe name old none = is_ok (absent refl refl)
      assigned_if-Safe name old (some v) = convert-Safe _ old v

      assigned_or-Safe :
          (default : B) (o : Option Json)
          → Safe
              (Assigned f o (default, ok tt) (default, unexpected wrong_type))
              (assigned_or J r f default o)
      unfolding assigned_or
      assigned_or-Safe default none = is_ok (absent refl refl)
      assigned_or-Safe default (some v) = convert-Safe _ default v

      assigned_or_value-Safe :
          (old value : B) (o : Option Json)
          → Safe
              (Assigned f o (value, ok tt) (old, unexpected wrong_type))
              (assigned_or_value J r f old value o)
      unfolding assigned_or_value
      assigned_or_value-Safe old value none = is_ok (absent refl refl)
      assigned_or_value-Safe old value (some v) = convert-Safe _ old v

      -- Where `r` converts every value that it accepts: the three assignments let no exception out.
      -- They store the converted value of the key. Without the key `assign_if` keeps the member and
      -- reports an error, and the others store the default. At a value of the wrong type they report
      -- an error, and `assign_if_or` alone stores the default.
      pub assignments :
          (j : Json) (name : String) (old default : B)
          → let o = find_member j name in
            Safe
              (Assigned f o (old, unexpected (member_not_found name)) (old, unexpected wrong_type))
              (assign_if J r f j name old)
            × Safe
                (Assigned f o (default, ok tt) (default, unexpected wrong_type))
                (assign_if_or J r f j name default)
            × Safe
                (Assigned f o (default, ok tt) (old, unexpected wrong_type))
                (assign_if_or_value J r f j name old default)
      unfolding assign_if assign_if_or assign_if_or_value
      assignments j name old default =
          let o = find_member j name in
          (
            assigned_if-Safe name old o,
            assigned_or-Safe default o,
            assigned_or_value-Safe old default o,
          )

    -- What an assignment leaves in a member that held `old`: the value that `find` gives, else `old`.
    abbrev pub Left : {B : Type 0} → (A → B) → B → Expected A → B → Type 0
    Left f old (ok a) b = b ≡ f a
    Left f old (unexpected e) b = b ≡ old
    Left f old thrown b = Unit
    Left f old undefined b = Unit

    assigned_if-Left :
        {B : Type 0}
        → IsSound r
        → (f : A → B) (name : String) (old : B) (o : Option Json)
        → Returns (λ p. Left f old (found J r name o) p.0) (assigned_if J r f name old o)
    unfolding assigned_if convert get_as
    assigned_if-Left sound f name old none = returns refl
    assigned_if-Left sound f name old (some v) = elim (Bool-cases (r.is_valid v)) [
      | inl h ↦ let (a, e) = sound v h in rw (h, e) (returns refl)
      | inr h ↦ rw h (returns refl)
    ]

    pub assign_if-Left :
        {B : Type 0}
        → IsSound r
        → (f : A → B) (j : Json) (name : String) (old : B)
        → Returns (λ p. Left f old (find J r j name) p.0) (assign_if J r f j name old)
    unfolding assign_if find
    assign_if-Left sound f j name old = assigned_if-Left sound f name old (find_member j name)
