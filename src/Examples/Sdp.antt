-- ===== src/Examples/Sdp.antt =====
-- An SDP library that reads every text as one session of video, and the theorems on SDP files there.
use nmos_sender_receiver_fra.Prelude.{
  code, String, ◌≡◌, refl, false, Option, none, some, [], ◌∷◌, arith, ◌==◌, if◌then◌else◌, drop,
}
use nmos_sender_receiver_fra.Prelude.Int.{pos}
use nmos_sender_receiver_fra.Expected.{Safe, ok}
use nmos_sender_receiver_fra.Stdlib.Stoi.{stoi, is_space, digit?}
use nmos_sender_receiver_fra.Configuration.{VideoSenderInfo, progressive, video_info, NetworkLeg}
use nmos_sender_receiver_fra.Stdlib.Hex.{hex_pair, hex_char}
use nmos_sender_receiver_fra.Json.Access.{find, get_as}
use nmos_sender_receiver_fra.Json.Select.{element, index, name_value, select}
use nmos_sender_receiver_fra.Sdp.Clocks.{RefClk, ptp, sender_clock, refclk_to_string}
use nmos_sender_receiver_fra.Sdp.Settings.{SdpSettings}
use nmos_sender_receiver_fra.Sdp.Reader.{
  TsRefClk, SdpLibrary, VideoParameters, Parameters, to_refclk, to_mediaclk, to_network_settings,
  get_raw_video_params, format_of, parse_json, parse_sdp, split_colon,
}
use nmos_sender_receiver_fra.Sdp.Reader.Outcome.{IsPlayable, parse_sdp-Safe}
use nmos_sender_receiver_fra.Sdp.Reader.Clock.{
  IsReadable, of_domain, ReadsClocks, to_refclk-refclk_to_string,
}
use nmos_sender_receiver_fra.Examples.Values.{
  Value, number, text, array, object, empty, cons, done, with, values-Converts, fmt,
  fmt-PrintsBytes,
}
use nmos_sender_receiver_fra.Libraries.{Libraries}
use nmos_sender_receiver_fra.Examples.Configs.{libraries}

-- The members of an SDP file that are read, as JSON.
abbrev filter : Value
filter = object (
    with "name" (text "source-filter") (
      with "value"
        (object (
          with "destination_address" (text "239.0.0.1")
            (with "source_addresses" (array (cons (text "192.168.1.2") empty)) done)))
        done))

abbrev description : Value
description = object (
    with "media" (object (with "port" (number 5004) done))
      (with "attributes" (array (cons filter empty)) done))

abbrev session : Value
session = object (with "media_descriptions" (array (cons description empty)) done)

abbrev pub reading : Libraries
reading = record libraries { parse = λ s. some session }

abbrev read_video : VideoParameters reading
read_video = record {
  width = pos 1920;
  height = pos 1080;
  numerator = pos 50;
  denominator = pos 1;
  interlace = false;
  depth = pos 10;
}

abbrev pub read_parameters : Parameters reading
read_parameters = record {
  payload_type = pos 96;
  session_id = "1";
  session_version = "2";
  session_name = "camera";
  mediaclk = record { clock_source = "sender"; clock_parameters = "" };
  ts_refclk =
      record { clock_source = "ptp"; mac_address = ""; ptp_server = "39-A7-94-FF-FE-07-CB-D0:127" }
      ∷ [];
  media_type = "video";
  encoding_name = "raw";
  audio = none;
  video = some read_video;
}

abbrev pub sdp_library : SdpLibrary reading
sdp_library = record {
  Session = String;
  parse_session = λ s. some s;
  parameters = λ s. some read_parameters;
  serialize = λ s. s;
}

abbrev pub read_leg : NetworkLeg
read_leg = record {
  rtp_enabled = false;
  source_port = none;
  source_ip = some "192.168.1.2";
  destination_ip = some "239.0.0.1";
  destination_port = some (pos 5004);
  interface_name = none;
  interface_ip = some "0.0.0.0";
}

abbrev pub read_info : VideoSenderInfo reading
read_info = record {
  height = pos 1080;
  width = pos 1920;
  exact_framerate = (pos 50, pos 1);
  chroma_sub_sampling = "YCbCr-4:2:2";
  structure = progressive;
  depth = pos 10;
}

abbrev pub read_settings : SdpSettings reading
read_settings = record {
  format = video_info read_info;
  origin = record { description = "camera"; session_id = "1"; session_version = "2" };
  payload_type = 96;
  primary = read_leg;
  secondary = none;
  ts_refclk = ptp "39-A7-94-FF-FE-07-CB-D0" (some 127);
  mediaclk = sender_clock;
}

pub parses : parse_sdp reading sdp_library "v=0" ≡ ok read_settings
unfolding parse_sdp select element index name_value find get_as to_refclk to_mediaclk
    to_network_settings get_raw_video_params format_of parse_json stoi is_space digit? split_colon
parses = refl

parse_sdp-Safe_example : Safe (IsPlayable reading) (parse_sdp reading sdp_library "v=0")
parse_sdp-Safe_example = parse_sdp-Safe reading values-Converts sdp_library "v=0"

-- A reader of the attribute ts-refclk.
abbrev pub read_clock : String → Option TsRefClk
read_clock String.[] = none
read_clock (String.◌∷◌ c s) =
    if code c == b'l'
    then some (record { clock_source = "localmac"; mac_address = drop 8 s; ptp_server = "" })
    else some (record { clock_source = "ptp"; mac_address = ""; ptp_server = drop 17 s })

reads_clocks : ReadsClocks read_clock
reads_clocks = record { mac = λ address. refl; server = λ server. refl }

abbrev a_clock : RefClk
a_clock = ptp "39-A7" (some 7)

IsReadable-a_clock : IsReadable fmt a_clock
unfolding stoi is_space digit? hex_pair hex_char
IsReadable-a_clock =
    of_domain "39-A7" 7 (refl, (refl, (refl, (refl, (refl, tt))))) (omega arith) (2, refl)

to_refclk-refclk_to_string_example :
    (p : TsRefClk) × (read_clock (refclk_to_string fmt a_clock) ≡ some p)
    × (to_refclk (p ∷ []) ≡ ok a_clock)
to_refclk-refclk_to_string_example =
    to_refclk-refclk_to_string fmt read_clock a_clock fmt-PrintsBytes reads_clocks
      IsReadable-a_clock
