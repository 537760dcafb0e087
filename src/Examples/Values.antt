-- ===== src/Examples/Values.antt =====
-- The libraries that are parameters of the model, by concrete functions.
use nmos_sender_receiver_fra.Prelude.{
  ℕ, ◌%◌, ◌^◌, ◌<◌, String, Bool, true, false, Option, none, some, List, [], ◌∷◌, ◌≡◌, refl, str_eq,
  if◌then◌else◌, arith,
}
use nmos_sender_receiver_fra.Prelude.Int.{pos}
use nmos_sender_receiver_fra.Json.Api.{JsonApi, Converts}
use nmos_sender_receiver_fra.Sdp.Fmt.{Fmt, PrintsBytes}
use nmos_sender_receiver_fra.Stdlib.Hex.{hex_pair}
use native.Mathlib.Nat.{mod-lt, one-le-pow}

mutual
  -- A JSON value without fractions.
  pub data Value : Type 0 where
    null : Value
    boolean : Bool → Value
    number : ℕ → Value
    text : String → Value
    array : Values → Value
    object : Members → Value

  pub data Values : Type 0 where
    empty : Values
    cons : Value → Values → Values

  pub data Members : Type 0 where
    done : Members
    with : String → Value → Members → Members

abbrev lookup : String → Members → Option Value
lookup key done = none
lookup key (with k v ms) = let rest = lookup key ms in if str_eq k key then some v else rest

abbrev find_member : Value → String → Option Value
find_member (object ms) key = lookup key ms
find_member _ key = none

abbrev list_of : Values → List Value
list_of empty = []
list_of (cons v vs) = v ∷ list_of vs

abbrev members_of : Members → List Value
members_of done = []
members_of (with k v ms) = v ∷ members_of ms

abbrev elements : Value → List Value
elements (array vs) = list_of vs
elements (object ms) = members_of ms
elements null = []
elements v = v ∷ []

abbrev is_null : Value → Bool
is_null null = true
is_null _ = false

abbrev is_array : Value → Bool
is_array (array _) = true
is_array _ = false

abbrev as_number : Value → Option ℕ
as_number (number n) = some n
as_number _ = none

abbrev as_text : Value → Option String
as_text (text s) = some s
as_text _ = none

abbrev as_boolean : Value → Option Bool
as_boolean (boolean b) = some b
as_boolean _ = none

abbrev present : {A : Type 0} → Option A → Bool
present none = false
present (some _) = true

abbrev mapped : {A B : Type 0} → (A → B) → Option A → Option B
mapped f none = none
mapped f (some a) = some (f a)

abbrev pub values : JsonApi
values = record {
  Json = Value;
  Float = ℕ;
  find_member = find_member;
  is_null = is_null;
  is_number = λ v. present (as_number v);
  is_string = λ v. present (as_text v);
  is_boolean = λ v. present (as_boolean v);
  is_array = is_array;
  get_number = λ v. mapped pos (as_number v);
  get_word = λ w v. mapped (λ n. n % 2 ^ w) (as_number v);
  get_float = as_number;
  get_string = as_text;
  get_boolean = as_boolean;
  elements = elements;
}

power_pos : (w : ℕ) → 0 < 2 ^ w
power_pos w = one-le-pow w 2 (omega arith)

mapped-some :
    {A B : Type 0} (f : A → B) (o : Option A)
    → present o ≡ true
    → (a : A) × (mapped f o ≡ some (f a))
mapped-some f none h = cc
mapped-some f (some a) h = (a, refl)

present-some : {A : Type 0} (o : Option A) → present o ≡ true → (a : A) × (o ≡ some a)
present-some none h = cc
present-some (some a) h = (a, refl)

null_text : (v : Value) → is_null v ≡ true → present (as_text v) ≡ false
null_text null h = refl
null_text (boolean _) h = cc
null_text (number _) h = cc
null_text (text _) h = cc
null_text (array _) h = cc
null_text (object _) h = cc

pub values-Converts : Converts values
values-Converts = record {
  number = λ v h. let (n, e) = mapped-some pos (as_number v) h in (pos n, e);
  word = λ w v h.
      let (n, e) = mapped-some (λ x. x % 2 ^ w) (as_number v) h in
      (n % 2 ^ w, e, mod-lt n (power_pos w));
  float = λ v h. present-some (as_number v) h;
  text = λ v h. present-some (as_text v) h;
  boolean = λ v h. present-some (as_boolean v) h;
  null_text = null_text;
}

-- A patch whose SDP file is the text.
abbrev pub patch : String → Value
patch s = object (
    with "transport_file"
      (object (with "type" (text "application/sdp") (with "data" (text s) done))) done)

abbrev pub fmt : Fmt
fmt = record { hex2 = hex_pair; dec = hex_pair }

pub fmt-PrintsBytes : PrintsBytes fmt
fmt-PrintsBytes b h = refl
