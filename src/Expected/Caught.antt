-- ===== src/Expected/Caught.antt =====
-- Calls whose exceptions are caught: what no exception hides.
use nmos_sender_receiver_fra.Prelude.{Bool, true, false, Option, none, some, if◌then◌else◌}
use nmos_sender_receiver_fra.Expected.{
  Error, Expected, Safe, is_ok, is_error, ok, unexpected, thrown, ◌>>=◌,
}
use nmos_sender_receiver_fra.Json.Access.{or_thrown}

-- The function returns, or an exception leaves it: nothing undefined happens.
pub data Caught {A : Type 0} (P : A → Type 0) : Expected A → Type 0 where
  caught_ok : {a : A} → P a → Caught P (ok a)
  caught_error : {e : Error} → Caught P (unexpected e)
  caught_exception : Caught P thrown

pub Caught-bind :
    {A B : Type 0} {P : A → Type 0} {Q : B → Type 0} {m : Expected A} (f : A → Expected B)
    → Caught P m
    → ((a : A) → P a → Caught Q (f a))
    → Caught Q (m >>= f)
Caught-bind f (caught_ok h) k = k _ h
Caught-bind f caught_error k = caught_error
Caught-bind f caught_exception k = caught_exception

pub Safe-Caught : {A : Type 0} {P : A → Type 0} {m : Expected A} → Safe P m → Caught P m
Safe-Caught (is_ok h) = caught_ok h
Safe-Caught is_error = caught_error

pub Caught-or_thrown : {A : Type 0} (o : Option A) → Caught (λ _. Unit {0}) (or_thrown o)
Caught-or_thrown none = caught_exception
Caught-or_thrown (some a) = caught_ok tt

pub Caught-if :
    {A : Type 0} {P : A → Type 0} (b : Bool) {m n : Expected A}
    → Caught P m
    → Caught P n
    → Caught P (if b then m else n)
Caught-if true h k = h
Caught-if false h k = k
