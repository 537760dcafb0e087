-- ===== src/Expected.antt =====
-- cpp/libs/bisect_expected/lib/include/bisect/expected/helpers.h, macros.h and ../expected.h.
-- `expected<T>` holds a value or an error; a call of a C++ function may also let an exception
-- escape, or have no defined behaviour. The text of an error's message is not modelled: an error is
-- the place that made it, and `make_error`, which prefixes a message, keeps that place.
pub mod Caught
use nmos_sender_receiver_fra.Prelude.{
  String, ◌≡◌, refl, sym, subst, Bool, true, false, if◌then◌else◌,
}

pub data Error : Type 0 where
  -- json.h
  key_not_found member_not_found : String → Error
  wrong_type : Error
  index_too_large not_an_array name_not_found : Error
  -- serialization
  capabilities_not_array capabilities_not_one : Error
  capability_not_supported : String → Error
  transport_file_not_sdp : Error
  invalid_frame_structure invalid_media_type : String → Error
  -- clocks.cpp, reader.cpp
  invalid_mac_size invalid_mac_digits : Error
  -- resource_map.cpp
  resource_not_found : String → Error
  -- any other
  other : String → Error

pub data Expected {ℓ} (A : Type ℓ) : Type ℓ where
  ok : A → Expected A
  unexpected : Error → Expected A
  -- an exception leaves the function
  thrown : Expected A
  -- undefined behaviour
  undefined : Expected A

abbrev pub MaybeOk : Type 0
MaybeOk = Expected (Unit {0})

-- core::detail::is_error, for a call that returned.
unfoldable pub has_error {ℓ} : {A : Type ℓ} → Expected A → Bool
has_error (unexpected e) = true
has_error _ = false

-- BST_ASSIGN, BST_ASSIGN_MUT, BST_CHECK_ASSIGN and BST_CHECK: the error of a failed call is returned.
infixl 5 ◌>>=◌ ◌>>◌
abbrev pub ◌>>=◌ {ℓ κ} : {A : Type ℓ} {B : Type κ} → Expected A → (A → Expected B) → Expected B
ok a >>= f = f a
unexpected e >>= f = unexpected e
thrown >>= f = thrown
undefined >>= f = undefined

abbrev pub ◌>>◌ {ℓ} : {B : Type ℓ} → MaybeOk → Expected B → Expected B
m >> k = m >>= λ _. k

-- BST_ENFORCE
abbrev pub enforce : Bool → Error → MaybeOk
enforce b e = if b then ok tt else unexpected e

-- The function returned, with a value of `P` or with an error: no exception left it, and nothing
-- undefined happened.
pub data Safe {ℓ} {A : Type ℓ} (P : A → Type 0) : Expected A → Type ℓ where
  is_ok : {a : A} → P a → Safe P (ok a)
  is_error : {e : Error} → Safe P (unexpected e)

pub Safe-bind {ℓ κ} :
    {A : Type ℓ} {B : Type κ} {P : A → Type 0} {Q : B → Type 0} {m : Expected A}
    (f : A → Expected B)
    → Safe P m
    → ((a : A) → P a → Safe Q (f a))
    → Safe Q (m >>= f)
Safe-bind f (is_ok h) k = k _ h
Safe-bind f is_error k = is_error

pub Safe-enforce : (b : Bool) (e : Error) → Safe (λ _. b ≡ true) (enforce b e)
Safe-enforce true e = is_ok refl
Safe-enforce false e = is_error

pub Safe-map {ℓ} :
    {A : Type ℓ} {P Q : A → Type 0} {m : Expected A} → ((a : A) → P a → Q a) → Safe P m → Safe Q m
Safe-map k (is_ok h) = is_ok (k _ h)
Safe-map k is_error = is_error

-- What holds of every value that a chain returns.
pub Ensures-bind {ℓ κ ι} :
    {A : Type ℓ} {B : Type κ} {Q : B → Type ι} (m : Expected A) (f : A → Expected B)
    → ((a : A) → m ≡ ok a → (b : B) → f a ≡ ok b → Q b)
    → (b : B) → (m >>= f) ≡ ok b
    → Q b
Ensures-bind (ok a) f k b h = k a refl b h
Ensures-bind (unexpected e) f k b h = cc
Ensures-bind thrown f k b h = cc
Ensures-bind undefined f k b h = cc

pub enforce-eq-ok : (b : Bool) (e : Error) (u : Unit {0}) → enforce b e ≡ ok u → b ≡ true
enforce-eq-ok true e u h = refl
enforce-eq-ok false e u h = cc

pub ok-injective {ℓ} : {A : Type ℓ} {a b : A} → ok a ≡ ok b → a ≡ b
ok-injective h = cc

-- A call that returned a value returned that value.
pub Safe-equation :
    {A : Type 0} {P : A → Type 0} (m : Expected A) → Safe P m → Safe (λ a. m ≡ ok a) m
Safe-equation (ok a) h = is_ok refl
Safe-equation (unexpected e) h = is_error
Safe-equation thrown h = elim h [ ]
Safe-equation undefined h = elim h [ ]

pub Safe-value {ℓ} :
    {A : Type ℓ} {P : A → Type 0} (m : Expected A) {a : A} → Safe P m → m ≡ ok a → P a
Safe-value {P = P} (ok x) (is_ok h) e = subst P (ok-injective e) h
Safe-value (unexpected x) h e = cc
Safe-value thrown h e = cc
Safe-value undefined h e = cc

-- The function returned a value of `P`.
pub data Returns {ℓ} {A : Type ℓ} (P : A → Type 0) : Expected A → Type ℓ where
  returns : {a : A} → P a → Returns P (ok a)

pub Returns-bind :
    {A B : Type 0} {P : B → Type 0} {m : Expected A} (f : A → Expected B) {a : A}
    → m ≡ ok a
    → Returns P (f a)
    → Returns P (m >>= f)
Returns-bind {P = P} f e h = subst (λ x. Returns P (x >>= f)) (sym e) h

pub Returns-then :
    {A B : Type 0} {P : A → Type 0} {Q : B → Type 0} {m : Expected A} (f : A → B)
    → Returns P m
    → ((a : A) → P a → Q (f a))
    → Returns Q (m >>= λ a. ok (f a))
Returns-then f (returns h) k = returns (k _ h)

pub Returns-value {ℓ} :
    {A : Type ℓ} {P : A → Type 0} {m : Expected A} {a : A} → Returns P m → m ≡ ok a → P a
Returns-value {P = P} (returns h) e = subst P (ok-injective e) h
