-- ===== src/Json/Access.antt =====
-- json.h: `is_valid`, `get_as`, `find`, `find_or`, `maybe_find`, `assign_if`, `assign_if_or` and
-- `assign_if_or_value`.
pub mod Laws
pub mod Members
use nmos_sender_receiver_fra.Prelude.{
  ℕ, String, Bool, true, not, ◌&&◌, Option, none, some, List, [], ◌∷◌, if◌then◌else◌,
}
use nmos_sender_receiver_fra.Expected.{
  Expected, MaybeOk, key_not_found, member_not_found, wrong_type, ok, unexpected, thrown, ◌>>=◌,
  ◌>>◌, enforce,
}
use nmos_sender_receiver_fra.Prelude.Int.{ℤ}
use nmos_sender_receiver_fra.Json.Api.{JsonApi}

-- j.get<T>(), with the exception of a wrong type.
abbrev pub or_thrown {ℓ} : {A : Type ℓ} → Option A → Expected A
or_thrown none = thrown
or_thrown (some a) = ok a

module _ (J : JsonApi) where
  open J use {
    Json, Float, find_member, is_null, is_number, is_string, is_boolean, get_number, get_word,
    get_float, get_string, get_boolean,
  }

  -- A type that `get_as` reads: `detail::is_valid<T>` and `j.get<T>()`.
  pub record Readable (A : Type 0) : Type 0 where
    pub is_valid : Json → Bool
    pub get : Json → Expected A

  abbrev pub read_text : Readable String
  read_text = record {
    is_valid = λ j. not (is_null j) && is_string j;
    get = λ j. or_thrown (get_string j);
  }

  abbrev pub read_boolean : Readable Bool
  read_boolean = record { is_valid = is_boolean; get = λ j. or_thrown (get_boolean j) }

  -- int, int64_t: a value outside the type's range is converted as the library does.
  abbrev pub read_int : Readable ℤ
  read_int = record { is_valid = is_number; get = λ j. or_thrown (get_number j) }

  -- uint8_t, uint16_t
  abbrev pub read_word : ℕ → Readable ℕ
  read_word w = record { is_valid = is_number; get = λ j. or_thrown (get_word w j) }

  abbrev pub read_float : Readable Float
  read_float = record { is_valid = is_number; get = λ j. or_thrown (get_float j) }

  abbrev pub read_json : Readable Json
  read_json = record { is_valid = λ j. true; get = ok }

  module _ {A : Type 0} (r : Readable A) where
    unfoldable pub get_as : Json → Expected A
    get_as j = do enforce (r.is_valid j) wrong_type; r.get j

    -- What `find` does with the iterator.
    abbrev found : String → Option Json → Expected A
    found key none = unexpected (key_not_found key)
    found key (some j) = get_as j

    unfoldable pub find : Json → String → Expected A
    find j key = found key (find_member j key)

    abbrev found_or : A → Option Json → Expected A
    found_or default none = ok default
    found_or default (some j) = get_as j

    unfoldable pub find_or : Json → String → A → Expected A
    find_or j key default = found_or default (find_member j key)

    abbrev maybe_found : Option Json → Expected (Option A)
    maybe_found none = ok none
    maybe_found (some j) = do v ← get_as j; ok (some v)

    unfoldable pub maybe_find : Json → String → Expected (Option A)
    maybe_find j key = maybe_found (find_member j key)

    -- The overload with several keys: each but the last leads to a nested value.
    abbrev nested : String → (Json → Expected A) → Option Json → Expected A
    nested key next none = unexpected (key_not_found key)
    nested key next (some v) = next v

    unfoldable pub find_path : String → List String → Json → Expected A
    find_path key [] j = find j key
    find_path key (k ∷ ks) j = nested key (find_path k ks) (find_member j key)

    abbrev maybe_nested : (Json → Expected (Option A)) → Option Json → Expected (Option A)
    maybe_nested next none = ok none
    maybe_nested next (some v) = next v

    unfoldable pub maybe_find_path : String → List String → Json → Expected (Option A)
    maybe_find_path key [] j = maybe_find j key
    maybe_find_path key (k ∷ ks) j = maybe_nested (maybe_find_path k ks) (find_member j key)

    -- The functions below assign to a member of an object, whose value was `old`. They give its new
    -- value and what they return; `wrong` is the value that a wrong type leaves.
    module _ {B : Type 0} (conversion : A → B) where
      convert : B → Json → Expected (B × MaybeOk)
      convert wrong v =
          let value : Expected (B × MaybeOk) = (do a ← r.get v; ok (conversion a, ok tt)) in
          if r.is_valid v then value else ok (wrong, unexpected wrong_type)

      assigned_if : String → B → Option Json → Expected (B × MaybeOk)
      assigned_if name old none = ok (old, unexpected (member_not_found name))
      assigned_if name old (some v) = convert old v

      unfoldable pub assign_if : Json → String → B → Expected (B × MaybeOk)
      unfolding convert assigned_if
      assign_if j name old = assigned_if name old (find_member j name)

      assigned_or : B → Option Json → Expected (B × MaybeOk)
      assigned_or default none = ok (default, ok tt)
      assigned_or default (some v) = convert default v

      unfoldable pub assign_if_or : Json → String → B → Expected (B × MaybeOk)
      unfolding convert assigned_or
      assign_if_or j name default = assigned_or default (find_member j name)

      assigned_or_value : B → B → Option Json → Expected (B × MaybeOk)
      assigned_or_value old value none = ok (value, ok tt)
      assigned_or_value old value (some v) = convert old v

      unfoldable pub assign_if_or_value : Json → String → B → B → Expected (B × MaybeOk)
      unfolding convert assigned_or_value
      assign_if_or_value j name old value = assigned_or_value old value (find_member j name)
