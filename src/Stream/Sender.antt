-- ===== src/Stream/Sender.antt =====
-- sender_plugin.cpp: the settings of a sender's stream.
pub mod Accepted
use nmos_sender_receiver_fra.Prelude.{ℕ, String, Option, none, some, str_eq, if◌then◌else◌}
use nmos_sender_receiver_fra.Expected.{
  Expected, invalid_frame_structure, invalid_media_type, ok, unexpected, undefined, ◌>>=◌, ◌>>◌,
}
use nmos_sender_receiver_fra.Prelude.Int.{ℤ}
use nmos_sender_receiver_fra.Json.Api.{JsonApi}
use nmos_sender_receiver_fra.Json.Access.{
  read_text, read_int, read_word, read_float, read_json, find, assign_if,
}

-- frame_structure_t
pub data FrameStructure : Type 0 where
  progressive interlaced_tff interlaced_bff psf : FrameStructure

-- frame_rate_t
pub record FrameRate : Type 0 where
  pub num : ℕ
  pub den : ℕ

-- video_info_t
pub record VideoInfo : Type 0 where
  pub height : ℤ
  pub width : ℤ
  pub exact_framerate : FrameRate
  pub chroma_sub_sampling : String
  pub structure : FrameStructure

-- network_settings_t
pub record NetworkSettings : Type 0 where
  pub source_ip_address : Option String
  pub interface_name : String
  pub destination_ip_address : String
  pub destination_port : ℕ

unfoldable pub to_frame_structure : String → Expected FrameStructure
to_frame_structure s =
    if str_eq s "progressive"
    then ok progressive
    else if str_eq s "interlaced_tff"
    then ok interlaced_tff
    else if str_eq s "interlaced_bff"
    then ok interlaced_bff
    else if str_eq s "interlaced_psf"
    then ok psf
    else unexpected (invalid_frame_structure s)

module _ (J : JsonApi) where
  open J use {Json, Float}

  -- audio_info_t
  pub record AudioInfo : Type 0 where
    pub number_of_channels : ℤ
    pub bits_per_sample : ℕ
    pub sampling_rate : ℤ
    pub packet_time : Float

  -- format_t
  pub data StreamFormat : Type 0 where
    video_info : VideoInfo → StreamFormat
    audio_info : AudioInfo → StreamFormat

  -- sender_settings; `secondary` is never set.
  pub record SenderSettings : Type 0 where
    pub format : StreamFormat
    pub primary : NetworkSettings

  unfoldable pub frame_rate_from_json : Json → Expected FrameRate
  frame_rate_from_json config = do
    numerator ← find J (read_word J 32) config "num"
    denominator ← find J (read_word J 32) config "den"
    ok (record { num = numerator; den = denominator })

  unfoldable pub video_info_from_json : Json → Expected VideoInfo
  video_info_from_json media = do
    frame_rate ← find J (read_json J) media "frame_rate"
    exact_framerate ← frame_rate_from_json frame_rate
    sampling ← find J (read_text J) media "sampling"
    width ← find J (read_int J) media "width"
    height ← find J (read_int J) media "height"
    structure_s ← find J (read_text J) media "structure"
    structure ← to_frame_structure structure_s
    ok (record {
      height = height;
      width = width;
      exact_framerate = exact_framerate;
      chroma_sub_sampling = sampling;
      structure = structure;
    })

  unfoldable pub audio_l24_info_from_json : Json → Expected AudioInfo
  audio_l24_info_from_json media = do
    channels ← find J (read_int J) media "number_of_channels"
    rate ← find J (read_int J) media "sampling_rate"
    time ← find J (read_float J) media "packet_time"
    ok (record {
      number_of_channels = channels;
      bits_per_sample = 24;
      sampling_rate = rate;
      packet_time = time;
    })

  -- The copy of a number that may have no value yet.
  copied : Option ℕ → Expected ℕ
  copied none = undefined
  copied (some n) = ok n

  unfoldable pub stream_network_from_json : Json → Expected NetworkSettings
  unfolding copied
  stream_network_from_json config = do
    primary ← find J (read_json J) config "primary"
    (destination, _) ← assign_if J (read_text J) (λ s. s) primary "destination_address" ""
    (port, _) ← assign_if J (read_word J 16) some primary "destination_port" none
    (source, _) ← assign_if J (read_text J) some primary "source_address" none
    (name, _) ← assign_if J (read_text J) (λ s. s) primary "interface_name" ""
    destination_port ← copied port
    ok (record {
      source_ip_address = source;
      interface_name = name;
      destination_ip_address = destination;
      destination_port = destination_port;
    })

  -- The branches on the media type.
  unfoldable pub stream_format : String → Json → Expected StreamFormat
  stream_format media_type media =
      if str_eq media_type "video/raw"
      then (do info ← video_info_from_json media; ok (video_info info))
      else if str_eq media_type "audio/L24"
      then (do info ← audio_l24_info_from_json media; ok (audio_info info))
      else unexpected (invalid_media_type media_type)

  unfoldable pub translate_sender : Json → Expected SenderSettings
  translate_sender config = do
    network ← find J (read_json J) config "network"
    primary ← stream_network_from_json network
    media_type ← find J (read_text J) config "media_type"
    media ← find J (read_json J) config "media"
    format ← stream_format media_type media
    ok (record { format = format; primary = primary })
