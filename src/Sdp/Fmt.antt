-- ===== src/Sdp/Fmt.antt =====
-- The conversions of the fmt library that the sources print numbers with. The library is not part
-- of the repository, so they are parameters.
use nmos_sender_receiver_fra.Prelude.{ℕ, ◌<◌, ◌≡◌, String}
use nmos_sender_receiver_fra.Stdlib.Hex.{hex_pair}

pub record Fmt : Type 0 where
  -- fmt::format("{:02x}", n)
  pub hex2 : ℕ → String
  -- fmt::format("{}", n)
  pub dec : ℕ → String

-- The documented meaning of {:02x} at a byte: two lower-case hexadecimal digits.
abbrev pub PrintsBytes : Fmt → Type 0
PrintsBytes f = (b : ℕ) → b < 256 → f.hex2 b ≡ hex_pair b
