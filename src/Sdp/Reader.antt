-- ===== src/Sdp/Reader.antt =====
-- reader.cpp: the settings that an SDP file is read to. The parser of SDP files and nmos-cpp's reading
-- of its result are not part of the repository: `SdpLibrary` is what the code uses of them.
pub mod Outcome
pub mod Clock
use nmos_sender_receiver_fra.Prelude.{
  ℕ, Char, code, String, Bool, false, not, ◌&&◌, ◌||◌, Option, none, some, List, [], ◌∷◌, str_eq,
  ◌==◌, if◌then◌else◌, size,
}
use nmos_sender_receiver_fra.Expected.{
  Expected, other, ok, unexpected, thrown, undefined, ◌>>=◌, ◌>>◌, enforce,
}
use nmos_sender_receiver_fra.Prelude.Int.{ℤ, pos, wrap}
use nmos_sender_receiver_fra.Stdlib.Stoi.{stoi}
use nmos_sender_receiver_fra.Libraries.{Libraries}
use nmos_sender_receiver_fra.Json.Access.{Readable, read_text, read_word, or_thrown}
use nmos_sender_receiver_fra.Json.Select.{Mapper, element, index, name_value, select}
use nmos_sender_receiver_fra.Configuration.{
  NetworkLeg, InterlaceMode, progressive, interlaced_tff, VideoSenderInfo, AudioSenderInfo,
  SenderMedia, video_info, audio_info,
}
use nmos_sender_receiver_fra.Sdp.Mac.{to_mac_address}
use nmos_sender_receiver_fra.Sdp.Clocks.{RefClk, localmac, ptp, MediaClk, direct, sender_clock}
use nmos_sender_receiver_fra.Sdp.Settings.{OriginSettings, SdpSettings}

-- The members of nmos::sdp_parameters::ts_refclk_t and mediaclk_t that are read.
pub record TsRefClk : Type 0 where
  pub clock_source : String
  pub mac_address : String
  pub ptp_server : String

pub record MediaClkSource : Type 0 where
  pub clock_source : String
  pub clock_parameters : String

before : Char → Option (String × String) → Option (String × String)
before c none = none
before c (some (a, b)) = some (String.◌∷◌ c a, b)

-- The text before the first colon and the text behind it: find(":") and the two calls of substr.
unfoldable pub split_colon : String → Option (String × String)
unfolding before
split_colon String.[] = none
split_colon (String.◌∷◌ c s) =
    let rest = before c (split_colon s) in if code c == b':' then some (String.[], s) else rest

-- static_cast of an int to an unsigned type of `w` bits.
domain_of : Option (ℤ × ℕ) → Expected ℕ
domain_of none = thrown
domain_of (some (x, _)) = ok (wrap 8 x)

ptp_clock : String → Option (String × String) → Expected RefClk
unfolding domain_of
ptp_clock server none = ok (ptp server none)
ptp_clock server (some (gmid, domain)) = do d ← domain_of (stoi 10 domain); ok (ptp gmid (some d))

named_clock : TsRefClk → Expected RefClk
unfolding ptp_clock
named_clock p =
    if str_eq p.clock_source "localmac"
    then (do address ← to_mac_address p.mac_address; ok (localmac address))
    else if str_eq p.clock_source "ptp"
    then ptp_clock p.ptp_server (split_colon p.ptp_server)
    else unexpected (other "Reference clock is invalid.")

unfoldable pub to_refclk : List TsRefClk → Expected RefClk
unfolding named_clock
to_refclk (p ∷ []) = named_clock p
to_refclk _ = unexpected (other "params size is different from 1")

offset_of : Option (ℤ × ℕ) → Expected MediaClk
offset_of none = thrown
offset_of (some (x, _)) = ok (direct (wrap 64 x))

unfoldable pub to_mediaclk : MediaClkSource → Expected MediaClk
unfolding offset_of
to_mediaclk p =
    if str_eq p.clock_source "direct"
    then offset_of (stoi 10 p.clock_parameters)
    else if str_eq p.clock_source "sender"
    then ok sender_clock
    else unexpected (other "Media clock is invalid.")

module _ (L : Libraries) where
  open L use {json, Json, Float, Rational, make_rational, parse}

  -- What is read of nmos::get_audio_L_parameters and nmos::get_video_raw_parameters; the numbers are
  -- those of static_cast<int>.
  pub record AudioParameters : Type 0 where
    pub channel_count : ℤ
    pub sample_rate : ℤ
    pub packet_time : Float

  pub record VideoParameters : Type 0 where
    pub width : ℤ
    pub height : ℤ
    pub numerator : ℤ
    pub denominator : ℤ
    pub interlace : Bool
    pub depth : ℤ

  -- The members of nmos::sdp_parameters that are read, and the two functions above at them; none is
  -- an exception.
  pub record Parameters : Type 0 where
    pub payload_type : ℤ
    pub session_id : String
    pub session_version : String
    pub session_name : String
    pub mediaclk : MediaClkSource
    pub ts_refclk : List TsRefClk
    pub media_type : String
    pub encoding_name : String
    pub audio : Option AudioParameters
    pub video : Option VideoParameters

  pub record SdpLibrary : Type 1 where
    -- sdp::parse_session_description, nmos::get_session_description_sdp_parameters and serialize;
    -- none is an exception
    pub Session : Type 0
    pub parse_session : String → Option Session
    pub parameters : Session → Option Parameters
    pub serialize : Session → String

  abbrev first_media : List (Mapper json) → List (Mapper json)
  first_media path = element json "media_descriptions" ∷ index json 0 ∷ path

  unfoldable pub to_network_settings : Json → Expected NetworkLeg
  to_network_settings sdp_settings = do
    port ←
        select json (read_word json 16) sdp_settings
          (first_media (element json "media" ∷ element json "port" ∷ []))
    destination ← select json (read_text json) sdp_settings (
        first_media (
          element json "attributes"
          ∷ name_value json "source-filter"
          ∷ element json "destination_address"
          ∷ []))
    source ← select json (read_text json) sdp_settings (
        first_media (
          element json "attributes"
          ∷ name_value json "source-filter"
          ∷ element json "source_addresses"
          ∷ index json 0
          ∷ []))
    ok (record {
      rtp_enabled = false;
      source_port = none;
      source_ip = some source;
      destination_ip = some destination;
      destination_port = some (pos port);
      interface_name = none;
      interface_ip = some "0.0.0.0";
    })

  bits_of : String → Expected ℕ
  bits_of encoding_name =
      if str_eq encoding_name "L16"
      then ok 16
      else if str_eq encoding_name "L24"
      then ok 24
      else unexpected (other "error parsing SDP: encoding not supported")

  unfoldable pub get_raw_audio_params :
      Option AudioParameters → String → Expected (AudioSenderInfo L)
  unfolding bits_of
  get_raw_audio_params audio encoding_name = do
    params ← or_thrown audio
    bits ← bits_of encoding_name
    ok (record {
      number_of_channels = params.channel_count;
      bits_per_sample = bits;
      sampling_rate = params.sample_rate;
      packet_time = params.packet_time;
    })

  is_zero : ℤ → Bool
  is_zero (pos n) = n == 0
  is_zero (ℤ.negsuc n) = false

  unfoldable pub get_raw_video_params : Option VideoParameters → Expected (VideoSenderInfo L)
  unfolding is_zero
  get_raw_video_params video = do
    params ← or_thrown video
    enforce (not (is_zero params.width || is_zero params.height))
        (other "Invalid width and/or height.")
    rate ← or_thrown (make_rational params.numerator params.denominator)
    ok (record {
      height = params.height;
      width = params.width;
      exact_framerate = rate;
      chroma_sub_sampling = "YCbCr-4:2:2";
      structure = if params.interlace then interlaced_tff else progressive;
      depth = params.depth;
    })

  -- The branches on the media type and the encoding.
  unfoldable pub format_of : Parameters → Expected (SenderMedia L)
  format_of p =
      if str_eq p.media_type "video" && str_eq p.encoding_name "raw"
      then (do video ← get_raw_video_params p.video; ok (video_info video))
      else if str_eq p.media_type "audio"
      then (do
        _ ← or_thrown p.audio
        audio ← get_raw_audio_params p.audio p.encoding_name
        ok (audio_info audio))
      else unexpected (other "error parsing SDP: media type not supported")

  -- catch(std::exception&)
  catching : {A : Type 0} → Expected A → Expected A
  catching (ok a) = ok a
  catching (unexpected e) = unexpected e
  catching thrown = unexpected (other "error parsing SDP")
  catching undefined = undefined

  module _ (S : SdpLibrary) where
    open S use {parse_session, parameters, serialize}

    -- parse_json
    unfoldable pub parse_json : String → Expected Json
    parse_json s = elim (parse s) [ none ↦ unexpected (other "invalid JSON") | some j ↦ ok j ]

    read_session : String → Expected (SdpSettings L)
    read_session sdp = do
      parsed ← or_thrown (parse_session sdp)
      p ← or_thrown (parameters parsed)
      json_sdp ← parse_json (serialize parsed)
      mediaclk ← to_mediaclk p.mediaclk
      ts_refclk ← to_refclk p.ts_refclk
      primary ← to_network_settings json_sdp
      format ← format_of p
      ok (record {
        format = format;
        origin = record {
          description = p.session_name;
          session_id = p.session_id;
          session_version = p.session_version;
        };
        payload_type = wrap 8 p.payload_type;
        primary = primary;
        secondary = none;
        ts_refclk = ts_refclk;
        mediaclk = mediaclk;
      })

    unfoldable pub parse_sdp : String → Expected (SdpSettings L)
    unfolding catching read_session
    parse_sdp sdp = catching (read_session sdp)
