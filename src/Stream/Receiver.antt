-- ===== src/Stream/Receiver.antt =====
-- receiver_plugin.cpp: the settings of a receiver's stream, from its configuration and an SDP file.
pub mod Follows
use nmos_sender_receiver_fra.Prelude.{
  ℕ, String, Bool, false, ◌&&◌, Option, none, some, str_eq, if◌then◌else◌,
}
use nmos_sender_receiver_fra.Expected.{
  Expected, capabilities_not_array, invalid_media_type, ok, unexpected, undefined, ◌>>=◌, ◌>>◌,
  enforce,
}
use nmos_sender_receiver_fra.Prelude.Int.{ℤ, wrap}
use nmos_sender_receiver_fra.Libraries.{Libraries}
use nmos_sender_receiver_fra.Json.Access.{read_text, read_json, find, assign_if}
use nmos_sender_receiver_fra.Configuration.{
  NetworkLeg, SenderMedia, VideoSenderInfo, AudioSenderInfo,
}
use nmos_sender_receiver_fra.Configuration
use nmos_sender_receiver_fra.Serialization.Receiver.{subscript}
use nmos_sender_receiver_fra.Sdp.Settings.{SdpSettings}

-- network_settings_t; a port with no value yet is none. It is copied as such, and where the settings
-- are returned it must have one.
pub record ReceiverNetwork : Type 0 where
  pub interface_name : String
  pub interface_address : String
  pub source_ip_address : String
  pub source_port : Option ℕ

-- video_info_t
pub record ReceiverVideo : Type 0 where
  pub height : ℤ
  pub width : ℤ
  pub chroma_sub_sampling : String

module _ (L : Libraries) where
  open L use {json, Json, Float, is_array, is_string, get_string, elements}

  -- audio_info_t
  pub record ReceiverAudio : Type 0 where
    pub number_of_channels : ℤ
    pub bits_per_sample : ℕ
    pub sampling_rate : ℤ
    pub packet_time : Float

  -- format_t
  pub data ReceiverFormat : Type 0 where
    receives_video : ReceiverVideo → ReceiverFormat
    receives_audio : ReceiverAudio → ReceiverFormat

  -- receiver_settings; `secondary` is never set.
  pub record ReceiverSettings : Type 0 where
    pub format : ReceiverFormat
    pub primary : ReceiverNetwork

  unfoldable pub receiver_network_from_json : Json → Expected ReceiverNetwork
  receiver_network_from_json config = do
    primary ← find json (read_json json) config "primary"
    (name, _) ← assign_if json (read_text json) (λ s. s) primary "interface_name" ""
    (address, _) ← assign_if json (read_text json) (λ s. s) primary "interface_address" ""
    ok (record {
      interface_name = name;
      interface_address = address;
      source_ip_address = "";
      source_port = none;
    })

  unfoldable pub translate_sdp_video_settings : VideoSenderInfo L → ReceiverVideo
  translate_sdp_video_settings v = record {
    height = v.height;
    width = v.width;
    chroma_sub_sampling = v.chroma_sub_sampling;
  }

  unfoldable pub translate_sdp_audio_settings : AudioSenderInfo L → ReceiverAudio
  translate_sdp_audio_settings a = record {
    number_of_channels = a.number_of_channels;
    bits_per_sample = a.bits_per_sample;
    sampling_rate = a.sampling_rate;
    packet_time = a.packet_time;
  }

  -- The two assignments from the SDP file's leg, the port as a uint16_t.
  address_of : String → Option String → String
  address_of old none = old
  address_of old (some a) = a

  port_of : Option ℕ → Option ℤ → Option ℕ
  port_of old none = old
  port_of old (some p) = some (wrap 16 p)

  with_leg : ReceiverNetwork → NetworkLeg → ReceiverNetwork
  unfolding address_of port_of
  with_leg net leg = record net {
    source_ip_address = address_of net.source_ip_address leg.destination_ip;
    source_port = port_of net.source_port leg.destination_port;
  }

  -- The port of settings that are returned.
  settled : Option ℕ → Expected ℕ
  settled none = undefined
  settled (some n) = ok n

  same_text : Option String → String → Bool
  same_text none s = false
  same_text (some t) s = str_eq t s

  -- A JSON value compared with a text.
  equals_text : Json → String → Bool
  unfolding same_text
  equals_text c s = is_string c && same_text (get_string c) s

  -- The branches on the capability and the alternative of the SDP file's format.
  receiver_format : Json → SenderMedia L → Expected ReceiverFormat
  unfolding equals_text
  receiver_format c (Configuration.video_info v) =
      if equals_text c "video/raw"
      then ok (receives_video (translate_sdp_video_settings v))
      else unexpected (invalid_media_type "")
  receiver_format c (Configuration.audio_info a) =
      if equals_text c "audio/L24"
      then ok (receives_audio (translate_sdp_audio_settings a))
      else unexpected (invalid_media_type "")

  unfoldable pub translate_receiver : Json → SdpSettings L → Expected ReceiverSettings
  unfolding with_leg receiver_format settled
  translate_receiver config sdp_settings = do
    network ← find json (read_json json) config "network"
    primary ← receiver_network_from_json network
    capabilities ← find json (read_json json) config "capabilities"
    enforce (is_array capabilities) capabilities_not_array
    c ← subscript (elements capabilities) 0
    format ← receiver_format c sdp_settings.format
    let received = with_leg primary sdp_settings.primary
    _ ← settled received.source_port
    ok (record { format = format; primary = received })
