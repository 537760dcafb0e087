-- ===== src/Examples/Streams.antt =====
-- The settings of streams, at the configurations of the node.
use nmos_sender_receiver_fra.Prelude.{◌≡◌, refl, true, none, some}
use nmos_sender_receiver_fra.Expected.{Safe, key_not_found, ok, undefined}
use nmos_sender_receiver_fra.Prelude.Int.{pos}
use nmos_sender_receiver_fra.Configuration.{
  NetworkLeg, AudioSenderInfo, VideoSenderInfo, progressive,
}
use nmos_sender_receiver_fra.Configuration
use nmos_sender_receiver_fra.Json.Access.{find, get_as, assign_if}
use nmos_sender_receiver_fra.Serialization.Receiver.{subscript}
use nmos_sender_receiver_fra.Stream.Sender.{translate_sender}
use nmos_sender_receiver_fra.Stream.Sender.Accepted.{
  IsTranslated, translate_sender-Safe, translate_sender-undefined,
}
use nmos_sender_receiver_fra.Sdp.Clocks.{sender_clock, ptp}
use nmos_sender_receiver_fra.Sdp.Settings.{SdpSettings}
use nmos_sender_receiver_fra.Stream.Receiver.{
  ReceiverSettings, receives_video, receiver_network_from_json, translate_sdp_video_settings,
  translate_receiver,
}
use nmos_sender_receiver_fra.Stream.Receiver.Follows.{IsFromSdp, translate_receiver-IsFromSdp}
use nmos_sender_receiver_fra.Examples.Values.{Value, object, done, with, values, values-Converts}
use nmos_sender_receiver_fra.Examples.Configs.{
  libraries, network, leg, sender_config, receiver_config,
}

translate_sender-Safe_example :
    Safe
      (IsTranslated values values-Converts sender_config 5004)
      (translate_sender values sender_config)
unfolding find get_as
translate_sender-Safe_example =
    translate_sender-Safe values values-Converts sender_config network leg 5004 refl refl refl

-- A configuration with no destination port.
abbrev portless : Value
portless = object (with "network" (object (with "primary" (object done) done)) done)

translate_sender-undefined_example : translate_sender values portless ≡ undefined
unfolding find get_as
translate_sender-undefined_example =
    translate_sender-undefined values values-Converts portless
      (object (with "primary" (object done) done)) (object done) (key_not_found "destination_port")
      refl refl refl

abbrev pub sdp_leg : NetworkLeg
sdp_leg = record {
  rtp_enabled = true;
  source_port = none;
  source_ip = some "192.168.1.2";
  destination_ip = some "239.0.0.1";
  destination_port = some (pos 70540);
  interface_name = none;
  interface_ip = some "0.0.0.0";
}

abbrev pub a_video : VideoSenderInfo libraries
a_video = record {
  height = pos 1080;
  width = pos 1920;
  exact_framerate = (pos 50, pos 1);
  chroma_sub_sampling = "YCbCr-4:2:2";
  structure = progressive;
  depth = pos 10;
}

abbrev pub sdp : SdpSettings libraries
sdp = record {
  format = Configuration.video_info a_video;
  origin = record { description = "camera"; session_id = "1"; session_version = "2" };
  payload_type = 96;
  primary = sdp_leg;
  secondary = none;
  ts_refclk = ptp "39-A7-94-FF-FE-07-CB-D0" (some 127);
  mediaclk = sender_clock;
}

abbrev settings : ReceiverSettings libraries
settings = record {
  format =
      receives_video
        (record { height = pos 1080; width = pos 1920; chroma_sub_sampling = "YCbCr-4:2:2" });
  primary = record {
    interface_name = "";
    interface_address = "";
    source_ip_address = "239.0.0.1";
    source_port = some 5004;
  };
}

translates : translate_receiver libraries receiver_config sdp ≡ ok settings
unfolding translate_receiver find get_as assign_if subscript receiver_network_from_json
    translate_sdp_video_settings
translates = refl

translate_receiver-IsFromSdp_example : IsFromSdp libraries sdp settings
translate_receiver-IsFromSdp_example =
    translate_receiver-IsFromSdp libraries receiver_config sdp settings translates
