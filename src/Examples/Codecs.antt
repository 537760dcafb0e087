-- ===== src/Examples/Codecs.antt =====
-- MAC addresses, at concrete ones.
use nmos_sender_receiver_fra.Prelude.{◌<◌, ◌≡◌, ◌↔◌, ◌⊎◌, true, arith}
use nmos_sender_receiver_fra.Expected.{ok}
use nmos_sender_receiver_fra.Sdp.Mac.{
  MacAddress, IsBytes, to_string, to_mac_address, lt, gt, le, ge,
}
use nmos_sender_receiver_fra.Sdp.Mac.Codec.{to_mac_address-to_string}
use nmos_sender_receiver_fra.Sdp.Mac.Order.{order_by_weight, weight}
use nmos_sender_receiver_fra.Examples.Values.{fmt, fmt-PrintsBytes}

abbrev mac : MacAddress
mac = record { b0 = 0; b1 = 27; b2 = 33; b3 = 255; b4 = 16; b5 = 5 }

abbrev other_mac : MacAddress
other_mac = record { b0 = 0; b1 = 27; b2 = 33; b3 = 254; b4 = 16; b5 = 5 }

bytes : IsBytes mac
bytes = record {
  in0 = omega arith;
  in1 = omega arith;
  in2 = omega arith;
  in3 = omega arith;
  in4 = omega arith;
  in5 = omega arith;
}

other_bytes : IsBytes other_mac
other_bytes = record {
  in0 = omega arith;
  in1 = omega arith;
  in2 = omega arith;
  in3 = omega arith;
  in4 = omega arith;
  in5 = omega arith;
}

to_mac_address-to_string_example : to_mac_address (to_string fmt mac "-") ≡ ok mac
to_mac_address-to_string_example = to_mac_address-to_string fmt mac "-" fmt-PrintsBytes bytes

order_by_weight_example :
    (lt mac other_mac ≡ true ↔ weight mac < weight other_mac)
    × (gt mac other_mac ≡ true ↔ weight other_mac < weight mac)
    × (le mac other_mac ≡ true ↔ (weight mac < weight other_mac) ⊎ (mac ≡ other_mac))
    × (ge mac other_mac ≡ true ↔ (weight other_mac < weight mac) ⊎ (mac ≡ other_mac))
order_by_weight_example = order_by_weight mac other_mac bytes other_bytes
