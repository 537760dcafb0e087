-- ===== src/Examples/Properties.antt =====
-- The properties of elements, at concrete ones.
use nmos_sender_receiver_fra.Prelude.{String, ◌≡◌, refl, some, none}
use nmos_sender_receiver_fra.Prelude.Int.{ℤ, pos}
use nmos_sender_receiver_fra.Expected.{Expected, ok}
use nmos_sender_receiver_fra.Stdlib.Stoi.{stoi, is_space, digit?}
use nmos_sender_receiver_fra.Plugin.Sender.{SenderElement, init}
use nmos_sender_receiver_fra.Plugin.Properties.{destination_port, sender_number, set_property}
use nmos_sender_receiver_fra.Plugin.Properties.Shown.{
  sender_shows, showing, sends, sending, set_property-shows,
}
use nmos_sender_receiver_fra.Examples.Written.{zeroed}

abbrev atoi : String → Expected ℤ
atoi t = elim (stoi 10 t) [ none ↦ ok (pos 0) | some r ↦ ok r.0 ]

reads_port : atoi "5004" ≡ ok (pos 5004)
unfolding stoi is_space digit?
reads_port = refl

set_property-shows_example :
    (new : SenderElement) × (set_property atoi
        (sender_number destination_port)
        (some "5004")
        (init zeroed)
      ≡ ok new)
    × (sender_shows new ≡ showing destination_port "5004" (sender_shows (init zeroed)))
    × (sends new ≡ sending destination_port "5004" (pos 5004) (init zeroed))
set_property-shows_example =
    set_property-shows atoi destination_port "5004" (pos 5004) (init zeroed) reads_port
