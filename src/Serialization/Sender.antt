-- ===== src/Serialization/Sender.antt =====
-- sender.cpp: the configuration of a sender.
pub mod Consistent
use nmos_sender_receiver_fra.Prelude.{
  ℕ, String, true, false, Option, none, some, str_eq, if◌then◌else◌,
}
use nmos_sender_receiver_fra.Expected.{
  Expected, invalid_frame_structure, invalid_media_type, ok, unexpected, ◌>>=◌, ◌>>◌,
}
use nmos_sender_receiver_fra.Prelude.Int.{ℤ}
use nmos_sender_receiver_fra.Libraries.{Libraries}
use nmos_sender_receiver_fra.Json.Access.{
  read_text, read_boolean, read_int, read_word, read_float, read_json, or_thrown, find, find_or,
  maybe_find, assign_if_or_value,
}
use nmos_sender_receiver_fra.Configuration.{
  Format, video, audio, InterlaceMode, progressive, interlaced_tff, interlaced_bff, interlaced_psf,
  empty_meta, VideoSenderInfo, AudioSenderInfo, SenderMedia, video_info, audio_info, NmosSender,
}
use nmos_sender_receiver_fra.Serialization.Common.{
  nmos_meta_from_json, network_from_json, framerate_from_json,
}
use nmos_sender_receiver_fra.Serialization.Receiver.{rtp_mcast}
use nmos_sender_receiver_fra.Serialization.SenderId.{synthetize_id}

unfoldable pub to_interlace_mode : String → Expected InterlaceMode
to_interlace_mode s =
    if str_eq s "progressive"
    then ok progressive
    else if str_eq s "interlaced_tff"
    then ok interlaced_tff
    else if str_eq s "interlaced_bff"
    then ok interlaced_bff
    else if str_eq s "interlaced_psf"
    then ok interlaced_psf
    else unexpected (invalid_frame_structure s)

-- An empty text is no SDP file.
forced : String → Option String
forced s = if str_eq s "" then none else some s

module _ (L : Libraries) where
  open L use {json, Json, Rational, of_int, Web, web_null, to_web, find_member}

  unfoldable pub video_sender_info_from_json : Json → Expected (VideoSenderInfo L)
  video_sender_info_from_json media = do
    frame_rate ← find json (read_json json) media "frame_rate"
    exact_framerate ← framerate_from_json L frame_rate
    sampling ← find json (read_text json) media "sampling"
    width ← find json (read_int json) media "width"
    height ← find json (read_int json) media "height"
    structure_s ← find json (read_text json) media "structure"
    structure ← to_interlace_mode structure_s
    ok (record {
      height = height;
      width = width;
      exact_framerate = exact_framerate;
      chroma_sub_sampling = sampling;
      structure = structure;
      depth = ℤ.pos 0;
    })

  -- audio_l24_sender_info_from_json and audio_l16_sender_info_from_json differ in the bits only.
  audio_sender_info : ℕ → Json → Expected (AudioSenderInfo L)
  audio_sender_info bits media = do
    number_of_channels ← find json (read_int json) media "number_of_channels"
    sampling_rate ← find json (read_int json) media "sampling_rate"
    packet_time ← find json (read_float json) media "packet_time"
    ok (record {
      number_of_channels = number_of_channels;
      bits_per_sample = bits;
      sampling_rate = sampling_rate;
      packet_time = packet_time;
    })

  unfoldable pub audio_l24_sender_info_from_json : Json → Expected (AudioSenderInfo L)
  unfolding audio_sender_info
  audio_l24_sender_info_from_json = audio_sender_info 24

  unfoldable pub audio_l16_sender_info_from_json : Json → Expected (AudioSenderInfo L)
  unfolding audio_sender_info
  audio_l16_sender_info_from_json = audio_sender_info 16

  -- The value of a member that the target takes, null if there is none.
  extra_of : Option Json → Expected Web
  extra_of none = ok web_null
  extra_of (some v) = or_thrown (to_web v)

  unfoldable pub get_extra : Json → String → Expected Web
  unfolding extra_of
  get_extra j name = extra_of (find_member j name)

  -- The branches on the media type: the media, the format and the grain rate.
  unfoldable pub media_from_json : String → Json → Expected (SenderMedia L × Format × Rational)
  media_from_json media_type media =
      if str_eq media_type "video/raw"
      then (do
        info ← video_sender_info_from_json media
        ok (video_info info, video, info.exact_framerate))
      else if str_eq media_type "audio/L24"
      then (do
        info ← audio_l24_sender_info_from_json media
        ok (audio_info info, audio, of_int info.sampling_rate))
      else if str_eq media_type "audio/L16"
      then (do
        info ← audio_l16_sender_info_from_json media
        ok (audio_info info, audio, of_int info.sampling_rate))
      else unexpected (invalid_media_type media_type)

  unfoldable pub nmos_sender_from_json : Json → Expected (NmosSender L)
  unfolding forced
  nmos_sender_from_json config = do
    (meta, _) ← nmos_meta_from_json L config empty_meta
    (protocol, _) ← assign_if_or_value json (read_text json) (λ s. s) config "protocol" "" rtp_mcast
    flow_id ← synthetize_id meta.id 1
    source_id ← synthetize_id meta.id 2
    (master_enable, _) ←
        assign_if_or_value json (read_boolean json) (λ b. b) config "master_enable" false true
    network ← find json (read_json json) config "network"
    legs ← network_from_json L network false
    media_type ← find json (read_text json) config "media_type"
    payload_type ← maybe_find json (read_word json 8) config "payload_type"
    media ← find json (read_json json) config "media"
    (info, format, grain_rate) ← media_from_json media_type media
    sdp ← find_or json (read_text json) config "sdp" ""
    extra ← get_extra config "sender"
    flow_extra ← get_extra config "flow"
    ok (record {
      meta = meta;
      master_enable = master_enable;
      network = legs;
      protocol = protocol;
      format = format;
      grain_rate = grain_rate;
      media_type = media_type;
      source = record meta { id = source_id };
      flow = record meta { id = flow_id };
      flow_extra = flow_extra;
      media = info;
      payload_type = payload_type;
      forced_sdp = forced sdp;
      extra = extra;
    })
