-- ===== src/Prelude/Texts.antt =====
-- `std::string` as a native text. A `Char` of code c < 256 stands for the byte c, so the functions
-- below count and index what `size`, `substr` and `data` do.
use Prim.Native.Nat.{ℕ, zero, suc}
use Prim.Native.Char.{Char}
use Prim.Native.String.{String}
use mathlib.Core.Option.{Option, none, some}

abbrev pub size : String → ℕ
size String.[] = 0
size (String.◌∷◌ c s) = suc (size s)

-- s.substr(n) and s.substr(0, n), clamped to the text's size.
abbrev pub drop : ℕ → String → String
drop zero s = s
drop (suc n) String.[] = String.[]
drop (suc n) (String.◌∷◌ c s) = drop n s

abbrev pub take : ℕ → String → String
take zero s = String.[]
take (suc n) String.[] = String.[]
take (suc n) (String.◌∷◌ c s) = String.◌∷◌ c (take n s)

abbrev pub append : String → String → String
append String.[] t = t
append (String.◌∷◌ c s) t = String.◌∷◌ c (append s t)

-- s[i]
abbrev pub char_at : String → ℕ → Option Char
char_at String.[] i = none
char_at (String.◌∷◌ c s) zero = some c
char_at (String.◌∷◌ c s) (suc i) = char_at s i
