-- ===== src/Serialization/SenderId.antt =====
-- sender.cpp, `synthetize_id`: the ids of a sender's flow and source are made from the sender's id by
-- changing its last hexadecimal digit.
pub mod Distinct
use nmos_sender_receiver_fra.Prelude.{ℕ, ◌+◌, ◌%◌, Char, String, Option, none, some, size, drop}
use nmos_sender_receiver_fra.Expected.{Expected, ok, thrown, undefined, ◌>>=◌}
use nmos_sender_receiver_fra.Prelude.Int.{ℤ, pos, negsuc}
use nmos_sender_receiver_fra.Stdlib.Stoi.{stoi}
use nmos_sender_receiver_fra.Stdlib.Hex.{hex_char}

-- sender_id.substr(sender_id.size() - 1); of an empty text `size() - 1` wraps and `substr` throws.
unfoldable pub last_char : String → Expected String
last_char String.[] = thrown
last_char (String.◌∷◌ c s) = ok (drop (size s) (String.◌∷◌ c s))

-- sprintf(data + size - 1, "%x", digit) of a digit below 16.
unfoldable pub replace_last : String → Char → String
replace_last String.[] d = String.[]
replace_last (String.◌∷◌ c String.[]) d = String.◌∷◌ d String.[]
replace_last (String.◌∷◌ c s) d = String.◌∷◌ c (replace_last s d)

-- A negative value, which one character cannot give, would print as eight digits past the end.
new_id : String → ℕ → Option (ℤ × ℕ) → Expected String
new_id sender_id delta none = thrown
new_id sender_id delta (some (negsuc n, _)) = undefined
new_id sender_id delta (some (pos v, _)) = ok (replace_last sender_id (hex_char ((v + delta) % 16)))

unfoldable pub synthetize_id : String → ℕ → Expected String
unfolding new_id
synthetize_id sender_id delta = do
  digit ← last_char sender_id
  new_id sender_id delta (stoi 16 digit)
