-- ===== src/Sdp/Mac.antt =====
-- cpp/libs/bisect_sdp/lib/src/clocks.cpp, namespace sdp::ethernet: MAC addresses.
pub mod Codec
pub mod Order
use nmos_sender_receiver_fra.Prelude.{
  ℕ, ◌+◌, ◌*◌, ◌%◌, ◌^◌, ◌<◌, Char, String, Bool, not, ◌&&◌, ◌||◌, Option, none, some, List, [],
  ◌∷◌, ltb, leb, ◌==◌, if◌then◌else◌, size, drop, take, append,
}
use nmos_sender_receiver_fra.Prelude.Int.{ℤ, wrap}
use nmos_sender_receiver_fra.Expected.{
  Expected, ok, unexpected, undefined, invalid_mac_size, invalid_mac_digits, enforce, ◌>>=◌, ◌>>◌,
}
use nmos_sender_receiver_fra.Stdlib.Stoi.{stoi}
use nmos_sender_receiver_fra.Sdp.Fmt.{Fmt}

-- std::array<std::byte, 6>
pub record MacAddress : Type 0 where
  pub b0 : ℕ
  pub b1 : ℕ
  pub b2 : ℕ
  pub b3 : ℕ
  pub b4 : ℕ
  pub b5 : ℕ

-- Each entry is a byte.
pub record IsBytes (m : MacAddress) : Type 0 where
  pub in0 : m.b0 < 256
  pub in1 : m.b1 < 256
  pub in2 : m.b2 < 256
  pub in3 : m.b3 < 256
  pub in4 : m.b4 < 256
  pub in5 : m.b5 < 256

abbrev pub bytes : MacAddress → List ℕ
bytes m = m.b0 ∷ m.b1 ∷ m.b2 ∷ m.b3 ∷ m.b4 ∷ m.b5 ∷ []

-- One {:02x} and, with a separator, one {}.
abbrev then_byte : Fmt → Char → ℕ → String → String
then_byte f separator b rest = append (f.hex2 b) (String.◌∷◌ separator rest)

unfoldable pub to_string : Fmt → MacAddress → Char → String
to_string f m separator = then_byte f separator m.b0 (
    then_byte f separator m.b1 (
      then_byte f separator m.b2
        (then_byte f separator m.b3 (then_byte f separator m.b4 (f.hex2 m.b5)))))

-- The characters [from, from + n) of a text; reading past its end has no defined behaviour.
slice : String → ℕ → ℕ → Option String
slice s from n = if leb (from + n) (size s) then some (take n (drop from s)) else none

-- The exceptions of `stoi` are caught and become errors; static_cast<std::byte> wraps.
take_byte : Option (ℤ × ℕ) → Expected ℕ
take_byte none = unexpected invalid_mac_digits
take_byte (some (x, count)) = if count == 2 then ok (wrap 8 x) else unexpected invalid_mac_digits

read_slice : Option String → Expected ℕ
read_slice none = undefined
read_slice (some s) = take_byte (stoi 16 s)

-- The body of the loop over i.
unfoldable pub read_byte : String → ℕ → Expected ℕ
unfolding slice take_byte read_slice
read_byte address i = read_slice (slice address (i * 3) 2)

-- The six rounds of the loop are written out.
unfoldable pub to_mac_address : String → Expected MacAddress
to_mac_address address = do
  enforce (size address == 17) invalid_mac_size
  x0 ← read_byte address 0
  x1 ← read_byte address 1
  x2 ← read_byte address 2
  x3 ← read_byte address 3
  x4 ← read_byte address 4
  x5 ← read_byte address 5
  ok (record { b0 = x0; b1 = x1; b2 = x2; b3 = x3; b4 = x4; b5 = x5 })

-- The loop of the comparisons: nlhs += byte * base; base *= 10, in uint64_t.
weigh : List ℕ → ℕ → ℕ → ℕ
weigh [] base n = n
weigh (b ∷ bs) base n = weigh bs ((base * 10) % 2 ^ 64) ((n + b * base % 2 ^ 64) % 2 ^ 64)

-- operator<
unfoldable pub lt : MacAddress → MacAddress → Bool
unfolding weigh
lt lhs rhs = ltb (weigh (bytes lhs) 1 0) (weigh (bytes rhs) 1 0)

-- operator>
unfoldable pub gt : MacAddress → MacAddress → Bool
unfolding weigh
gt lhs rhs = ltb (weigh (bytes rhs) 1 0) (weigh (bytes lhs) 1 0)

-- operator==
unfoldable pub eq : MacAddress → MacAddress → Bool
eq lhs rhs =
    (lhs.b0 == rhs.b0)
    && (lhs.b1 == rhs.b1)
    && (lhs.b2 == rhs.b2)
    && (lhs.b3 == rhs.b3)
    && (lhs.b4 == rhs.b4)
    && (lhs.b5 == rhs.b5)

-- operator!=
unfoldable pub ne : MacAddress → MacAddress → Bool
ne lhs rhs =
    not (lhs.b0 == rhs.b0)
    && not (lhs.b1 == rhs.b1)
    && not (lhs.b2 == rhs.b2)
    && not (lhs.b3 == rhs.b3)
    && not (lhs.b4 == rhs.b4)
    && not (lhs.b5 == rhs.b5)

-- operator<=
unfoldable pub le : MacAddress → MacAddress → Bool
le lhs rhs = lt lhs rhs || eq lhs rhs

-- operator>=
unfoldable pub ge : MacAddress → MacAddress → Bool
ge lhs rhs = gt lhs rhs || eq lhs rhs
