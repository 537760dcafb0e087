-- ===== src/Sdp/Mac/Order.antt =====
-- The comparison operators of MAC addresses.
use nmos_sender_receiver_fra.Prelude.{
  ℕ, ◌+◌, ◌-◌, ◌*◌, ◌<◌, ◌≡◌, sym, ◌∙◌, ◌≢◌, ◌↔◌, ◌⊎◌, true, false, ◌||◌, false≢true, arith, ltb,
}
use nmos_sender_receiver_fra.Sdp.Mac.{MacAddress, IsBytes, bytes, weigh, lt, gt, eq, ne, le, ge}

-- The number that both sides of a comparison are summed to: the bytes as digits in base ten, the
-- first one the least.
abbrev pub weight : MacAddress → ℕ
weight m = m.b0 + 10 * m.b1 + 100 * m.b2 + 1000 * m.b3 + 10_000 * m.b4 + 100_000 * m.b5

-- The sum fits in a uint64_t.
weigh-eq-weight : (m : MacAddress) → IsBytes m → weigh (bytes m) 1 0 ≡ weight m
unfolding weigh
weigh-eq-weight m h = omega arith

module _ (m n : MacAddress) (hm : IsBytes m) (hn : IsBytes n) where
  lt-weight : lt m n ≡ ltb (weight m) (weight n)
  unfolding lt
  lt-weight = rw (weigh-eq-weight m hm, weigh-eq-weight n hn)

  gt-weight : gt m n ≡ ltb (weight n) (weight m)
  unfolding gt
  gt-weight = rw (weigh-eq-weight m hm, weigh-eq-weight n hn)

-- `==` holds of equal addresses only, and of all of them.
pub eq_lem : (m n : MacAddress) → (eq m n ≡ true) ↔ (m ≡ n)
unfolding eq
eq_lem m n = ground arith

test : (a b : ℕ) → (ltb a b ≡ true) ↔ (a < b)
test a b = ground arith

or_eq : (m n : MacAddress) (a b : ℕ) → (ltb a b || eq m n ≡ true) ↔ (a < b) ⊎ (m ≡ n)
or_eq m n a b = ground (arith, eq_lem m n)

-- On addresses of bytes, `<` and `>` compare the weights, and `<=` and `>=` add the equality of the
-- addresses to that.
pub order_by_weight :
    (m n : MacAddress)
    → IsBytes m
    → IsBytes n
    → (lt m n ≡ true ↔ weight m < weight n)
      × (gt m n ≡ true ↔ weight n < weight m)
      × (le m n ≡ true ↔ (weight m < weight n) ⊎ (m ≡ n))
      × (ge m n ≡ true ↔ (weight n < weight m) ⊎ (m ≡ n))
unfolding le ge
order_by_weight m n hm hn =
    rw (lt-weight m n hm hn, gt-weight m n hm hn)
      (
        test (weight m) (weight n),
        test (weight n) (weight m),
        or_eq m n (weight m) (weight n),
        or_eq m n (weight n) (weight m),
      )

-- `!=` is no negation of `==`: it holds exactly if the addresses differ in every byte.
pub ne_lem :
    (m n : MacAddress)
    → (ne m n ≡ true)
      ↔ (m.b0 ≢ n.b0)
        × (m.b1 ≢ n.b1)
        × (m.b2 ≢ n.b2)
        × (m.b3 ≢ n.b3)
        × (m.b4 ≢ n.b4)
        × (m.b5 ≢ n.b5)
unfolding ne
ne_lem m n = ground arith

-- The address with ten taken from the second byte's place in the sum and put into the first.
abbrev pub carry : MacAddress → MacAddress
carry m = record m { b0 = m.b0 + 10; b1 = m.b1 - 1 }

module _ (m : MacAddress) (h : IsBytes m) (low : m.b0 < 246) (high : 0 < m.b1) where
  carry-IsBytes : IsBytes (carry m)
  carry-IsBytes = omega arith

  weight-carry : weight (carry m) ≡ weight m
  weight-carry = omega arith

  lt-carry : lt m (carry m) ≡ false
  lt-carry = rw (lt-weight m (carry m) h carry-IsBytes, weight-carry) (ground arith)

  gt-carry : gt m (carry m) ≡ false
  gt-carry = rw (gt-weight m (carry m) h carry-IsBytes, weight-carry) (ground arith)

  eq-carry : eq m (carry m) ≡ false
  unfolding eq
  eq-carry = ground arith

  ne-carry : ne m (carry m) ≡ false
  unfolding ne
  ne-carry = ground arith

-- Base ten is too small for bytes: an address and its `carry` differ, and yet none of `<`, `>`, `<=`,
-- `>=`, `==` and `!=` holds between them, where the second byte is not zero and the first below 246.
pub incomparable :
    (m : MacAddress)
    → IsBytes m
    → m.b0 < 246
    → 0 < m.b1
    → (m ≢ carry m)
      × (lt m (carry m) ≡ false)
      × (gt m (carry m) ≡ false)
      × (le m (carry m) ≡ false)
      × (ge m (carry m) ≡ false)
      × (eq m (carry m) ≡ false)
      × (ne m (carry m) ≡ false)
unfolding le ge
incomparable m h low high =
    let l = lt-carry m h low high in
    let g = gt-carry m h low high in
    let e = eq-carry m h low high in
    (
      λ p. false≢true (sym e ∙ (eq_lem m (carry m)).1 p),
      l,
      g,
      rw (l, e),
      rw (g, e),
      e,
      ne-carry m h low high,
    )
