-- ===== src/Node/Action.antt =====
-- A call that changes a state: the state is changed also where an error is returned.
use nmos_sender_receiver_fra.Prelude.{◌≡◌, refl, Bool, true, false, if◌then◌else◌}
use nmos_sender_receiver_fra.Expected.{
  Safe, is_error, Error, Expected, ok, unexpected, thrown, undefined,
}

abbrev pub Action : Type 0 → Type 0 → Type 0
Action S A = S → S × Expected A

abbrev pub proceed {ℓ} :
    {S A : Type 0} {B : Type ℓ} → S × Expected A → (A → S → S × Expected B) → S × Expected B
proceed (s, ok a) f = f a s
proceed (s, unexpected e) f = (s, unexpected e)
proceed (s, thrown) f = (s, thrown)
proceed (s, undefined) f = (s, undefined)

-- BST_ASSIGN and BST_CHECK on such calls.
infixl 5 ◌>>=◌ ◌>>◌
abbrev pub ◌>>=◌ : {S A B : Type 0} → Action S A → (A → Action S B) → Action S B
act >>= next = λ s. proceed (act s) next

abbrev pub ◌>>◌ : {S B : Type 0} → Action S (Unit {0}) → Action S B → Action S B
act >> next = λ s. proceed (act s) (λ _. next)

-- A call that reads the state only.
abbrev pub reading : {S A : Type 0} → (S → Expected A) → Action S A
reading f = λ s. (s, f s)

abbrev pub lift : {S A : Type 0} → Expected A → Action S A
lift r = λ s. (s, r)

abbrev pub pure : {S A : Type 0} → A → Action S A
pure a = lift (ok a)

abbrev pub fail : {S A : Type 0} → Error → Action S A
fail e = lift (unexpected e)

-- A call that only changes the state.
abbrev pub update : {S : Type 0} → (S → S) → Action S (Unit {0})
update f = λ s. (f s, ok tt)

-- A returned error is a value of the caller.
abbrev pub attempt : {S A : Type 0} → S × Expected A → S × Expected (Expected A)
attempt (s, ok a) = (s, ok (ok a))
attempt (s, unexpected e) = (s, ok (unexpected e))
attempt (s, thrown) = (s, thrown)
attempt (s, undefined) = (s, undefined)

-- What holds after a chain that returned a value holds if it does so after each value of the first call.
pub Ensures-proceed :
    {S A B : Type 0} {Q : S → B → Type 0} (r : S × Expected A) (f : A → Action S B)
    → ((a : A) (s : S) → r ≡ (s, ok a) → (t : S) (b : B) → f a s ≡ (t, ok b) → Q t b)
    → (t : S) (b : B) → proceed r f ≡ (t, ok b)
    → Q t b
Ensures-proceed (s, ok a) f k t b h = k a s refl t b h
Ensures-proceed (s, unexpected e) f k t b h = cc
Ensures-proceed (s, thrown) f k t b h = cc
Ensures-proceed (s, undefined) f k t b h = cc

-- What every outcome of a chain satisfies.
pub Always-proceed :
    {S A B : Type 0} (Q : S → Type 0) (r : S × Expected A) (f : A → Action S B)
    → Q r.0
    → ((a : A) (s : S) → Q s → Q (f a s).0)
    → Q (proceed r f).0
Always-proceed Q (s, ok a) f h k = k a s h
Always-proceed Q (s, unexpected e) f h k = h
Always-proceed Q (s, thrown) f h k = h
Always-proceed Q (s, undefined) f h k = h

pub Safe-proceed :
    {S A B : Type 0} {P : A → Type 0} {Q : B → Type 0} (r : S × Expected A) (f : A → Action S B)
    → Safe P r.1
    → ((a : A) (s : S) → Safe Q (f a s).1)
    → Safe Q (proceed r f).1
Safe-proceed (s, ok a) f h k = k a s
Safe-proceed (s, unexpected e) f h k = is_error
Safe-proceed (s, thrown) f h k = elim h [ ]
Safe-proceed (s, undefined) f h k = elim h [ ]

pub attempt-state : {S A : Type 0} (r : S × Expected A) → (attempt r).0 ≡ r.0
attempt-state (s, ok a) = refl
attempt-state (s, unexpected e) = refl
attempt-state (s, thrown) = refl
attempt-state (s, undefined) = refl

-- An attempt at a call that throws nothing gives a value.
pub attempt-value :
    {S A : Type 0} {P : A → Type 0} (r : S × Expected A)
    → Safe P r.1
    → (x : Expected A) × (attempt r ≡ (r.0, ok x))
attempt-value (s, ok a) h = (ok a, refl)
attempt-value (s, unexpected e) h = (unexpected e, refl)
attempt-value (s, thrown) h = elim h [ ]
attempt-value (s, undefined) h = elim h [ ]

pub proceed-undefined :
    {S A B : Type 0} (r : S × Expected A) (f : A → Action S B)
    → r.1 ≡ undefined
    → (proceed r f).1 ≡ undefined
proceed-undefined (s, ok a) f h = cc
proceed-undefined (s, unexpected e) f h = cc
proceed-undefined (s, thrown) f h = cc
proceed-undefined (s, undefined) f h = refl

-- What both branches satisfy.
pub either_branch :
    {A : Type 0} (Q : A → Type 0) (b : Bool) {x y : A} → Q x → Q y → Q (if b then x else y)
either_branch Q true p q = p
either_branch Q false p q = q
