-- ===== src/Stdlib/Hex.antt =====
-- Lower-case hexadecimal digits, as `printf` writes them.
use nmos_sender_receiver_fra.Prelude.{
  ℕ, zero, suc, ◌<◌, ◌/◌, ◌%◌, ◌≡◌, refl, Char, String, Bool, true, false, ◌&&◌, Option, none, some,
  arith, ◌==◌, char_at, Bool-cases, inl, inr, if◌then◌else◌,
}
use nmos_sender_receiver_fra.Prelude.Int.{ℤ, pos}
use nmos_sender_receiver_fra.Stdlib.Stoi.{stoi, digit?, is_space}

-- The digit of a value below 16.
unfoldable pub hex_char : ℕ → Char
hex_char d = elim (char_at "0123456789abcdef" d) [ none ↦ "0" | some c ↦ c ]

-- The two digits of a byte.
unfoldable pub hex_pair : ℕ → String
unfolding hex_char
hex_pair b = String.◌∷◌ (hex_char (b / 16)) (String.◌∷◌ (hex_char (b % 16)) String.[])

-- Does `stoi` read exactly `n` characters, of value `v`?
abbrev reads : Option (ℤ × ℕ) → ℕ → ℕ → Bool
reads (some (pos w, k)) v n = w == v && k == n
reads _ v n = false

reads_sound : (o : Option (ℤ × ℕ)) (v n : ℕ) → reads o v n ≡ true → o ≡ some (pos v, n)
reads_sound o v n h = ground arith

-- The test holds of the numbers before `k`, counted down.
holds_before : (ℕ → Bool) → ℕ → Bool
holds_before test zero = true
holds_before test (suc k) = let rest = holds_before test k in if test k then rest else false

holds_before-at :
    (test : ℕ → Bool) (k : ℕ) → holds_before test k ≡ true → (v : ℕ) → v < k → test v ≡ true
unfolding holds_before
holds_before-at test zero e v lt = absurd (omega arith)
holds_before-at test (suc k) e v lt = elim (Bool-cases (v == k)) [
  | inl same ↦ ground (arith)
  | inr other ↦ holds_before-at test k (ground arith) v (ground arith)
]

pair_table : holds_before (λ b. reads (stoi 16 (hex_pair b)) b 2) 256 ≡ true
unfolding holds_before stoi digit? is_space hex_pair
pair_table = refl

-- Base 16 reads a byte's two digits back.
pub stoi-hex_pair : (b : ℕ) → b < 256 → stoi 16 (hex_pair b) ≡ some (pos b, 2)
stoi-hex_pair b h = reads_sound _ b 2 (holds_before-at _ 256 pair_table b h)

char_table : holds_before (λ d. reads (stoi 16 (String.◌∷◌ (hex_char d) String.[])) d 1) 16 ≡ true
unfolding holds_before stoi digit? is_space hex_char
char_table = refl

-- So does one digit.
pub stoi-hex_char : (d : ℕ) → d < 16 → stoi 16 (String.◌∷◌ (hex_char d) String.[]) ≡ some (pos d, 1)
stoi-hex_char d h = reads_sound _ d 1 (holds_before-at _ 16 char_table d h)
