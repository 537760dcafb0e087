-- ===== src/Serialization/SenderId/Distinct.antt =====
-- The synthetised ids differ from the sender's id and from one another.
use nmos_sender_receiver_fra.Prelude.{
  ℕ, ◌+◌, ◌%◌, ◌<◌, Char, String, ◌≡◌, refl, ap, subst, ◌≢◌, ◌⊎◌, inl, inr, Option, none, some,
  arith,
}
use nmos_sender_receiver_fra.Expected.{Expected, ok, thrown}
use nmos_sender_receiver_fra.Prelude.Int.{ℤ, pos, negsuc}
use nmos_sender_receiver_fra.Stdlib.Stoi.{stoi, stoi_char-lt, stoi_char_nonneg}
use nmos_sender_receiver_fra.Stdlib.Hex.{hex_char, stoi-hex_char}
use nmos_sender_receiver_fra.Serialization.SenderId.{last_char, replace_last, new_id, synthetize_id}

-- `s` ends in a character that `stoi` reads as a hexadecimal digit of value `v`.
pub record LastDigit (s : String) (v : ℕ) : Type 0 where
  pub char : Char
  pub count : ℕ
  pub last : last_char s ≡ ok (String.◌∷◌ char String.[])
  pub value : stoi 16 (String.◌∷◌ char String.[]) ≡ some (pos v, count)

-- All but the last character.
unfoldable pub stem : String → String
stem String.[] = String.[]
stem (String.◌∷◌ c String.[]) = String.[]
stem (String.◌∷◌ c s) = String.◌∷◌ c (stem s)

LastDigit-unique : (s : String) {v w : ℕ} → LastDigit s v → LastDigit s w → v ≡ w
LastDigit-unique s {v} {w} a b = cc (a.last, b.last, a.value, b.value)

last_char-cons :
    (c : Char) (s : String)
    → (e : Char) × (last_char (String.◌∷◌ c s) ≡ ok (String.◌∷◌ e String.[]))
unfolding last_char
last_char-cons c String.[] = (c, refl)
last_char-cons c (String.◌∷◌ e s) = last_char-cons e s

last_char-replace_last :
    (c : Char) (s : String) (d : Char)
    → last_char (replace_last (String.◌∷◌ c s) d) ≡ ok (String.◌∷◌ d String.[])
unfolding last_char replace_last
last_char-replace_last c String.[] d = refl
last_char-replace_last c (String.◌∷◌ e String.[]) d = refl
last_char-replace_last c (String.◌∷◌ e (String.◌∷◌ f s)) d =
    last_char-replace_last e (String.◌∷◌ f s) d

stem-replace_last : (s : String) (d : Char) → stem (replace_last s d) ≡ stem s
unfolding stem replace_last
stem-replace_last String.[] d = refl
stem-replace_last (String.◌∷◌ c String.[]) d = refl
stem-replace_last (String.◌∷◌ c (String.◌∷◌ e String.[])) d = refl
stem-replace_last (String.◌∷◌ c (String.◌∷◌ e (String.◌∷◌ f s))) d =
    ap (String.◌∷◌ c) (stem-replace_last (String.◌∷◌ e (String.◌∷◌ f s)) d)

LastDigit-lt : {s : String} {v : ℕ} → LastDigit s v → v < 16
LastDigit-lt {s} {v} d = stoi_char-lt d.char v d.count d.value

-- A synthetised id ends in the digit of `(v + delta) % 16`.
LastDigit-replace_last :
    (c : Char) (s : String) (n : ℕ)
    → LastDigit (replace_last (String.◌∷◌ c s) (hex_char (n % 16))) (n % 16)
LastDigit-replace_last c s n = record {
  char = hex_char (n % 16);
  count = 1;
  last = last_char-replace_last c s _;
  value = stoi-hex_char (n % 16) (omega arith);
}

-- The id `x` is made from `id` by adding `delta` to its last digit, modulo 16.
pub record IsShifted (id : String) (delta : ℕ) (x : String) : Type 0 where
  pub digit : ℕ
  pub before : LastDigit id digit
  pub after : LastDigit x ((digit + delta) % 16)
  pub same_stem : stem x ≡ stem id

-- Either the id is shifted, or an exception leaves `synthetize_id`.
abbrev Outcome : String → ℕ → Expected String → Type 0
Outcome id delta r =
    ((x : String) × (r ≡ ok x) × IsShifted id delta x)
    ⊎ ((r ≡ thrown) × ((v : ℕ) → ¬ LastDigit id v))

new_id-Outcome :
    (c e : Char) (s : String) (delta : ℕ)
    → last_char (String.◌∷◌ c s) ≡ ok (String.◌∷◌ e String.[])
    → (o : Option (ℤ × ℕ)) → stoi 16 (String.◌∷◌ e String.[]) ≡ o
    → Outcome (String.◌∷◌ c s) delta (new_id (String.◌∷◌ c s) delta o)
unfolding new_id
new_id-Outcome c e s delta l none h = inr (refl, λ v d. cc (l, d.last, d.value, h))
new_id-Outcome c e s delta l (some (negsuc v, n)) h = absurd (stoi_char_nonneg e v n h)
new_id-Outcome c e s delta l (some (pos v, n)) h = inl (
  replace_last (String.◌∷◌ c s) (hex_char ((v + delta) % 16)),
  refl,
  record {
    digit = v;
    before = record { char = e; count = n; last = l; value = h };
    after = LastDigit-replace_last c s (v + delta);
    same_stem = stem-replace_last (String.◌∷◌ c s) _;
  },
)

-- An empty id has no last character.
synthetize_id-empty : (delta : ℕ) → Outcome String.[] delta (synthetize_id String.[] delta)
unfolding synthetize_id last_char
synthetize_id-empty delta = inr (refl, λ v d. cc (d.last))

-- `synthetize_id` returns exactly for an id that ends in a hexadecimal digit, and then the id that
-- differs from it in this digit at most, to which `delta` is added modulo 16; otherwise it throws.
pub synthetize_id_lem :
    (id : String) (delta : ℕ)
    → ((x : String) × (synthetize_id id delta ≡ ok x) × IsShifted id delta x)
      ⊎ ((synthetize_id id delta ≡ thrown) × ((v : ℕ) → ¬ LastDigit id v))
unfolding synthetize_id
synthetize_id_lem String.[] delta = synthetize_id-empty delta
synthetize_id_lem (String.◌∷◌ c s) delta =
    let (e, l) = last_char-cons c s in rw l (new_id-Outcome c e s delta l _ refl)

shifted :
    (id : String) (delta : ℕ) (x : String) → synthetize_id id delta ≡ ok x → IsShifted id delta x
shifted id delta x h = elim (synthetize_id_lem id delta) [
  | inl (y, e, moved) ↦ subst (IsShifted id delta) (cc (e, h)) moved
  | inr (e, _) ↦ cc
]

digits_differ : {s : String} {v w : ℕ} → LastDigit s v → LastDigit s w → v ≢ w → ⊥
digits_differ {s} a b h = h (LastDigit-unique s a b)

-- Whenever both are made, the ids of a sender's flow and source differ from the sender's id and from
-- one another.
pub ids_distinct :
    (id flow_id source_id : String)
    → synthetize_id id 1 ≡ ok flow_id
    → synthetize_id id 2 ≡ ok source_id
    → (flow_id ≢ id) × (source_id ≢ id) × (flow_id ≢ source_id)
ids_distinct id flow_id source_id f s =
    let p = shifted id 1 flow_id f in
    let q = shifted id 2 source_id s in
    let same = LastDigit-unique id p.before q.before in
    (
      λ e.
          digits_differ p.before (subst (λ x. LastDigit x ((p.digit + 1) % 16)) e p.after)
            (omega (arith, LastDigit-lt p.before)),
      λ e.
          digits_differ q.before (subst (λ x. LastDigit x ((q.digit + 2) % 16)) e q.after)
            (omega (arith, LastDigit-lt q.before)),
      λ e.
          digits_differ (subst (λ x. LastDigit x ((p.digit + 1) % 16)) e p.after) q.after
            (omega arith),
    )
