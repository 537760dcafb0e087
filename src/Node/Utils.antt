-- ===== src/Node/Utils.antt =====
-- cpp/libs/ossrf_nmos_api/lib/src/utils.h: calls of a function for each of some items.
use nmos_sender_receiver_fra.Prelude.{◌≡◌, refl, List, [], ◌∷◌, if◌then◌else◌}
use nmos_sender_receiver_fra.Expected.{
  Expected, MaybeOk, Error, ok, unexpected, thrown, undefined, has_error, ◌>>=◌,
}

unfoldable pub fold_maybe_ok : List MaybeOk → MaybeOk
unfolding has_error
fold_maybe_ok [] = ok tt
fold_maybe_ok (r ∷ rs) = let rest = fold_maybe_ok rs in if has_error r then r else rest

unfoldable pub call_many : {A B : Type 0} → (A → Expected B) → List A → Expected (List B)
call_many f [] = ok []
call_many f (x ∷ xs) = do r ← f x; rs ← call_many f xs; ok (r ∷ rs)

-- All of the calls before the last one returned a value, `made`, and the last one gave `r`.
pub data Calls {A B : Type 0} (f : A → Expected B) : List A → Expected (List B) → Type 0 where
  all_done : Calls f [] (ok [])
  one_more :
      {x : A} {xs : List A} {y : B} {ys : List B}
      → f x ≡ ok y
      → Calls f xs (ok ys)
      → Calls f (x ∷ xs) (ok (y ∷ ys))
  fails : {x : A} {xs : List A} {e : Error} → f x ≡ unexpected e → Calls f (x ∷ xs) (unexpected e)
  fails_later :
      {x : A} {xs : List A} {y : B} {e : Error}
      → f x ≡ ok y
      → Calls f xs (unexpected e)
      → Calls f (x ∷ xs) (unexpected e)

-- No call throws or has no defined behaviour.
pub data Returns {A : Type 0} : Expected A → Type 0 where
  returns_value : {a : A} → Returns (ok a)
  returns_error : {e : Error} → Returns (unexpected e)

step-Calls :
    {A B : Type 0} (f : A → Expected B) (x : A) (xs : List A) (r : Expected B)
    (rs : Expected (List B))
    → f x ≡ r
    → Returns r
    → Calls f xs rs
    → Calls f (x ∷ xs) (do y ← r; ys ← rs; ok (y ∷ ys))
step-Calls f x xs (ok y) (ok ys) h _ c = one_more h c
step-Calls f x xs (ok y) (unexpected e) h _ c = fails_later h c
step-Calls f x xs (ok y) thrown h _ c = elim c [ ]
step-Calls f x xs (ok y) undefined h _ c = elim c [ ]
step-Calls f x xs (unexpected e) rs h _ c = fails h
step-Calls f x xs thrown rs h r c = elim r [ ]
step-Calls f x xs undefined rs h r c = elim r [ ]

-- `call_many` calls the function for the items in order, up to the first error, which it returns, or
-- returns all of the results in the order of the items.
pub call_many-Calls :
    {A B : Type 0} (f : A → Expected B) (xs : List A)
    → ((x : A) → Returns (f x))
    → Calls f xs (call_many f xs)
unfolding call_many
call_many-Calls f [] h = all_done
call_many-Calls f (x ∷ xs) h =
    step-Calls f x xs (f x) (call_many f xs) refl (h x) (call_many-Calls f xs h)
