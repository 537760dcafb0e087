-- ===== src/Examples/Configs.antt =====
-- Configurations in the form of the files that the README shows.
use nmos_sender_receiver_fra.Libraries.{Libraries}
use nmos_sender_receiver_fra.Prelude.{
  str_eq, if◌then◌else◌, String, ◌≡◌, refl, none, some, [], ◌∷◌, true,
}
use nmos_sender_receiver_fra.Prelude.Int.{ℤ, pos}
use nmos_sender_receiver_fra.Expected.{ok}
use nmos_sender_receiver_fra.Configuration.{
  NmosSender, NmosReceiver, NetworkLeg, MetaInfo, video, audio, audio_info, video_raw,
}
use nmos_sender_receiver_fra.Serialization.Receiver.{rtp_mcast, nmos_receiver_from_json}
use nmos_sender_receiver_fra.Serialization.Sender.{nmos_sender_from_json}
use nmos_sender_receiver_fra.Json.Access.{
  find, find_or, get_as, maybe_find, assign_if, assign_if_or_value,
}
use nmos_sender_receiver_fra.Stdlib.Stoi.{stoi, is_space, digit?}
use nmos_sender_receiver_fra.Stdlib.Hex.{hex_char}
use nmos_sender_receiver_fra.Serialization.SenderId.{synthetize_id, last_char, replace_last}
use nmos_sender_receiver_fra.Serialization.Common.{
  initialised, nmos_meta_from_json, network_leg_from_json, network_from_json,
}
use nmos_sender_receiver_fra.Serialization.Receiver.{subscript, format_specific}
use nmos_sender_receiver_fra.Serialization.Sender.{
  audio_l24_sender_info_from_json, media_from_json, get_extra,
}
use nmos_sender_receiver_fra.Examples.Values.{
  Value, boolean, number, text, array, object, null, empty, cons, done, with, patch, values,
}

-- The address and the interface of a leg.
abbrev pub leg : Value
leg = object (
    with "source_address" (text "192.168.1.2")
      (with "destination_port" (number 5004) (with "rtp_enabled" (boolean true) done)))

-- A leg whose flag is a text.
abbrev pub bad_leg : Value
bad_leg = object (with "rtp_enabled" (text "yes") done)

abbrev pub network : Value
network = object (with "primary" leg done)

abbrev pub media : Value
media = object (
    with "number_of_channels" (number 2)
      (with "sampling_rate" (number 48000) (with "packet_time" (number 1) done)))

-- A sender of 24 bit audio.
abbrev pub sender_config : Value
sender_config = object (
    with "id" (text "e543a2b1-d6a2-47f5-8d14-296bb6714ef2") (
      with "label" (text "microphone")
        (with "network" network (with "media_type" (text "audio/L24") (with "media" media done)))))

-- A sender with no id.
abbrev pub unnamed_config : Value
unnamed_config = object (with "network" network done)

abbrev capability : String → Value
capability s = array (cons (text s) empty)

abbrev pub receiver_config : Value
receiver_config = object (
    with "id" (text "db9f46cf-2414-4e25-b6c6-2078159857f9")
      (with "network" network (with "capabilities" (capability "video/raw") done)))

abbrev pub audio_receiver_config : Value
audio_receiver_config = object (with "capabilities" (capability "audio/L24") done)

-- The text of a configuration is its name; any other text is an SDP file.
abbrev parsed : String → Value
parsed s =
    if str_eq s "sender"
    then sender_config
    else if str_eq s "receiver"
    then receiver_config
    else patch s

abbrev pub libraries : Libraries
libraries = record {
  json = values;
  Rational = ℤ × ℤ;
  make_rational = λ n d. some (n, d);
  of_int = λ n. (n, pos 1);
  Web = Value;
  web_null = null;
  to_web = λ v. some v;
  float_zero = 0;
  parse = λ s. some (parsed s);
  payload_type_video_default = 96;
  payload_type_audio_default = 97;
  payload_type_data_default = 100;
  payload_type_mux_default = 98;
}

abbrev pub read_leg : NetworkLeg
read_leg = record {
  rtp_enabled = true;
  source_port = none;
  source_ip = some "192.168.1.2";
  destination_ip = none;
  destination_port = some (pos 5004);
  interface_name = none;
  interface_ip = none;
}

abbrev meta_with_id : String → MetaInfo
meta_with_id id = record { id = id; label = "microphone"; description = "" }

abbrev pub sender_of_config : NmosSender libraries
sender_of_config = record {
  meta = meta_with_id "e543a2b1-d6a2-47f5-8d14-296bb6714ef2";
  master_enable = true;
  network = record { primary = read_leg; secondary = none };
  protocol = rtp_mcast;
  format = audio;
  grain_rate = (pos 48000, pos 1);
  media_type = "audio/L24";
  source = meta_with_id "e543a2b1-d6a2-47f5-8d14-296bb6714ef4";
  flow = meta_with_id "e543a2b1-d6a2-47f5-8d14-296bb6714ef3";
  flow_extra = null;
  media = audio_info (record {
    number_of_channels = pos 2;
    bits_per_sample = 24;
    sampling_rate = pos 48000;
    packet_time = 1;
  });
  payload_type = none;
  forced_sdp = none;
  extra = null;
}

abbrev pub receiver_of_config : NmosReceiver
receiver_of_config = record {
  meta = record { id = "db9f46cf-2414-4e25-b6c6-2078159857f9"; label = ""; description = "" };
  master_enable = true;
  sender_id = none;
  sdp_data = none;
  network = record { primary = read_leg; secondary = none };
  protocol = rtp_mcast;
  format = video;
  media_types = video_raw ∷ [];
}

pub reads_sender : nmos_sender_from_json libraries sender_config ≡ ok sender_of_config
unfolding nmos_sender_from_json find get_as assign_if assign_if_or_value initialised
    nmos_meta_from_json network_leg_from_json network_from_json find_or maybe_find synthetize_id
    last_char replace_last stoi is_space digit? hex_char audio_l24_sender_info_from_json
    media_from_json get_extra
reads_sender = refl

pub reads_receiver : nmos_receiver_from_json libraries receiver_config ≡ ok receiver_of_config
unfolding nmos_receiver_from_json find get_as assign_if assign_if_or_value initialised
    nmos_meta_from_json network_leg_from_json network_from_json subscript format_specific
reads_receiver = refl
