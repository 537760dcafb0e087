-- ===== src/Sdp/Mac/Codec.antt =====
-- Printing and parsing of MAC addresses.
use nmos_sender_receiver_fra.Prelude.{
  ℕ, ◌+◌, ◌*◌, ◌<◌, Char, String, ◌≡◌, refl, inl, inr, true, Option, none, some, arith, leb, ◌==◌,
  Bool-cases, size, drop, take,
}
use nmos_sender_receiver_fra.Prelude.Int.{ℤ, pos, negsuc, wrap}
use nmos_sender_receiver_fra.Expected.{ok, Safe-bind, Safe-enforce}
use nmos_sender_receiver_fra.Expected.{Safe, is_ok, is_error}
use nmos_sender_receiver_fra.Stdlib.Stoi.{stoi}
use nmos_sender_receiver_fra.Stdlib.Hex.{hex_pair, stoi-hex_pair}
use nmos_sender_receiver_fra.Sdp.Fmt.{Fmt, PrintsBytes}
use nmos_sender_receiver_fra.Sdp.Mac.{
  take_byte, MacAddress, IsBytes, to_string, to_mac_address, slice, read_byte,
}

read_byte-hex_pair :
    (address : String) (i b : ℕ)
    → b < 256
    → slice address (i * 3) 2 ≡ some (hex_pair b)
    → read_byte address i ≡ ok b
unfolding read_byte
read_byte-hex_pair address i b h e = rw (e, read_byte, stoi-hex_pair b h) (ground arith)

-- What `to_string` writes where {:02x} prints two digits.
abbrev printing : Fmt
printing = record { hex2 = hex_pair; dec = λ n. String.[] }

module _ (m : MacAddress) (separator : Char) (h : IsBytes m) where
  parse_printed : to_mac_address (to_string printing m separator) ≡ ok m
  unfolding to_mac_address to_string hex_pair slice
  parse_printed = rw (
    read_byte-hex_pair _ 0 m.b0 h.in0 refl,
    read_byte-hex_pair _ 1 m.b1 h.in1 refl,
    read_byte-hex_pair _ 2 m.b2 h.in2 refl,
    read_byte-hex_pair _ 3 m.b3 h.in3 refl,
    read_byte-hex_pair _ 4 m.b4 h.in4 refl,
    read_byte-hex_pair _ 5 m.b5 h.in5 refl,
  )

to_string-printing :
    (f : Fmt) (m : MacAddress) (separator : Char)
    → PrintsBytes f
    → IsBytes m
    → to_string f m separator ≡ to_string printing m separator
unfolding to_string
to_string-printing f m separator prints h = rw (
  prints m.b0 h.in0,
  prints m.b1 h.in1,
  prints m.b2 h.in2,
  prints m.b3 h.in3,
  prints m.b4 h.in4,
  prints m.b5 h.in5,
)

-- Whatever the separator, a printed address is parsed back to the same address.
pub to_mac_address-to_string :
    (f : Fmt) (m : MacAddress) (separator : Char)
    → PrintsBytes f
    → IsBytes m
    → to_mac_address (to_string f m separator) ≡ ok m
to_mac_address-to_string f m separator prints h =
    rw (to_string-printing f m separator prints h) (parse_printed m separator h)

wrap-lt : (x : ℤ) → wrap 8 x < 256
wrap-lt (pos n) = omega arith
wrap-lt (negsuc n) = omega arith

take_byte-Safe : (o : Option (ℤ × ℕ)) → Safe (λ b. b < 256) (take_byte o)
unfolding take_byte
take_byte-Safe none = is_error
take_byte-Safe (some (x, count)) = elim (Bool-cases (count == 2)) [
  | inl e ↦ rw e (is_ok (wrap-lt x))
  | inr e ↦ rw e is_error
]

-- The six reads stay within a text of 17 characters.
read_byte-Safe : (s : String) (i : ℕ) → size s ≡ 17 → i < 6 → Safe (λ b. b < 256) (read_byte s i)
unfolding read_byte
read_byte-Safe s i h lt =
    let e : leb (i * 3 + 2) (size s) ≡ true = ground arith in
    rw e (take_byte-Safe (stoi 16 (take 2 (drop (i * 3) s))))

-- Every text is parsed to an address of bytes, and then has 17 characters, or is refused by an
-- error: no exception leaves the function, and it reads nothing past the text.
pub to_mac_address-Safe : (s : String) → Safe (λ m. IsBytes m × (size s ≡ 17)) (to_mac_address s)
unfolding to_mac_address
to_mac_address-Safe s = Safe-bind _ (Safe-enforce (size s == 17) _) λ _ e.
    let n : size s ≡ 17 = ground arith in
    Safe-bind _ (read_byte-Safe s 0 n (omega arith)) λ x0 h0.
      Safe-bind _ (read_byte-Safe s 1 n (omega arith)) λ x1 h1.
        Safe-bind _ (read_byte-Safe s 2 n (omega arith)) λ x2 h2.
          Safe-bind _ (read_byte-Safe s 3 n (omega arith)) λ x3 h3.
            Safe-bind _ (read_byte-Safe s 4 n (omega arith)) λ x4 h4.
              Safe-bind _ (read_byte-Safe s 5 n (omega arith)) λ x5 h5.
                is_ok (record { in0 = h0; in1 = h1; in2 = h2; in3 = h3; in4 = h4; in5 = h5 }, n)
