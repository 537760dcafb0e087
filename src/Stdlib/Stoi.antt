-- ===== src/Stdlib/Stoi.antt =====
-- `std::stoi(s, &count, base)`, by the rules of `strtol`: white space, a sign, for base 16 a prefix
-- 0x that a digit follows, and digits. `none` is an exception: no digit, or no `int`.
use nmos_sender_receiver_fra.Prelude.{
  ℕ, ◌+◌, ◌-◌, ◌*◌, ◌^◌, ◌<◌, Char, code, String, ◌≡◌, refl, ◌≢◌, Bool, true, false, ◌&&◌, ◌||◌,
  Option, none, some, arith, ltb, leb, ◌==◌, if◌then◌else◌,
}
use nmos_sender_receiver_fra.Prelude.Int.{ℤ, pos, negsuc}

unfoldable pub is_space : ℕ → Bool
is_space c = c == 32 || leb 9 c && leb c 13

unfoldable pub digit? : ℕ → ℕ → Option ℕ
digit? base c =
    let d =
      if leb b'0' c && leb c b'9'
      then c - b'0'
      else if leb b'a' c && leb c b'z'
      then c - b'a' + 10
      else if leb b'A' c && leb c b'Z'
      then c - b'A' + 10
      else base in
    if ltb d base then some d else none

-- The value of the leading digits and how many there are, added to what was read before.
scan : ℕ → String → ℕ → ℕ → ℕ × ℕ
scan base String.[] acc n = (acc, n)
scan base (String.◌∷◌ c s) acc n = elim (digit? base (code c)) [
  | none ↦ (acc, n)
  | some d ↦ scan base s (acc * base + d) (n + 1)
]

-- `int` has 32 bits.
in_range : Bool → ℕ → Bool
in_range negative v = if negative then leb v (2 ^ 31) else ltb v (2 ^ 31)

signed : Bool → ℕ → ℤ
signed true v = if v == 0 then pos 0 else negsuc (v - 1)
signed false v = pos v

finish : Bool → ℕ → ℕ × ℕ → Option (ℤ × ℕ)
finish negative skipped (v, n) =
    if n == 0
    then none
    else if in_range negative v
    then some (signed negative v, skipped + n)
    else none

is_prefix : ℕ → String → Bool
is_prefix base (String.◌∷◌ o (String.◌∷◌ x (String.◌∷◌ d _))) =
    base == 16
    && code o == b'0'
    && (code x == b'x' || code x == b'X')
    && elim (digit? 16 (code d)) [ none ↦ false | some _ ↦ true ]
is_prefix base _ = false

drop_two : String → String
drop_two (String.◌∷◌ o (String.◌∷◌ x s)) = s
drop_two s = s

after_sign : ℕ → Bool → ℕ → String → Option (ℤ × ℕ)
after_sign base negative skipped s =
    if is_prefix base s
    then finish negative (skipped + 2) (scan base (drop_two s) 0 0)
    else finish negative skipped (scan base s 0 0)

after_space : ℕ → ℕ → String → Option (ℤ × ℕ)
after_space base skipped String.[] = none
after_space base skipped (String.◌∷◌ c s) =
    if code c == b'-'
    then after_sign base true (skipped + 1) s
    else if code c == b'+'
    then after_sign base false (skipped + 1) s
    else after_sign base false skipped (String.◌∷◌ c s)

skip_space : ℕ → ℕ → String → Option (ℤ × ℕ)
skip_space base skipped String.[] = none
skip_space base skipped (String.◌∷◌ c s) =
    let rest = skip_space base (skipped + 1) s in
    if is_space (code c) then rest else after_space base skipped (String.◌∷◌ c s)

-- The value and `count`.
unfoldable pub stoi : ℕ → String → Option (ℤ × ℕ)
unfolding scan in_range signed finish is_prefix drop_two after_sign after_space skip_space
stoi base s = skip_space base 0 s

digit?-lt : (base c d : ℕ) → digit? base c ≡ some d → d < base
unfolding digit?
digit?-lt base c d h = ground arith

finish_lt :
    (o : Option ℕ) (v n : ℕ)
    → ((d : ℕ) → o ≡ some d → d < 16)
    → finish false 0 (elim o [ none ↦ (0, 0) | some d ↦ (0 * 16 + d, 0 + 1) ]) ≡ some (pos v, n)
    → v < 16
unfolding finish in_range signed
finish_lt none v n h e = ground arith
finish_lt (some d) v n h e = ground (arith, h d refl)

-- A value that is read from one character in base 16 is below 16, and is not negative.
pub stoi_char-lt :
    (c : Char) (v n : ℕ) → stoi 16 (String.◌∷◌ c String.[]) ≡ some (pos v, n) → v < 16
unfolding stoi
stoi_char-lt c v n = ground (arith, finish_lt (digit? 16 (code c)) v n (digit?-lt 16 (code c)))

pub stoi_char_nonneg : (c : Char) (v n : ℕ) → stoi 16 (String.◌∷◌ c String.[]) ≢ some (negsuc v, n)
unfolding stoi
stoi_char_nonneg c v n = ground arith
