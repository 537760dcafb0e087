-- ===== src/Context/Resource/Requests.antt =====
-- What an accepted sender answers.
use nmos_sender_receiver_fra.Prelude.{
  ℕ, String, ◌≡◌, Option, none, some, str_eq, eq_iff, if◌then◌else◌,
}
use nmos_sender_receiver_fra.Expected.{Expected, ok, ◌>>=◌}
use nmos_sender_receiver_fra.Libraries.{Libraries}
use nmos_sender_receiver_fra.Configuration.{Format, NmosSender, SenderMedia, video_info, audio_info}
use nmos_sender_receiver_fra.Serialization.Sender.Consistent.{
  Agrees, is_video, is_l24, is_l16, IsConsistent,
}
use nmos_sender_receiver_fra.Context.Resource.{
  SdpInfo, get_default_pt, value_or, packet_time_of, handle_sdp_info_request, new_sender,
}

module _ (L : Libraries) where
  open L use {Float, Rational, float_zero, payload_type_video_default, payload_type_audio_default}

  -- The payload type of a sender: its own, or the default of its kind of media.
  abbrev payload : Option ℕ → SenderMedia L → ℕ
  payload (some n) m = n
  payload none (video_info v) = payload_type_video_default
  payload none (audio_info a) = payload_type_audio_default

  abbrev packet_time : String → SenderMedia L → Float
  packet_time t (video_info v) = float_zero
  packet_time t (audio_info a) = if str_eq t "audio/L24" then a.packet_time else float_zero

  answer : String → Format → SenderMedia L → Option ℕ → Expected (SdpInfo L)
  unfolding get_default_pt value_or packet_time_of
  answer t f m pt = do
    default ← get_default_pt L f
    let payload_type = value_or L pt default
    let audio_info : Expected (SdpInfo L) = (do
      time ← packet_time_of L m
      ok (record { payload_type = payload_type; packet_time = time }))
    if str_eq t "audio/L24"
        then audio_info
        else ok (record { payload_type = payload_type; packet_time = float_zero })

  answer_lem :
      (t : String) (f : Format) (g : Rational) (m : SenderMedia L) (pt : Option ℕ)
      → Agrees L t m f g
      → answer t f m pt ≡ ok (record { payload_type = payload pt m; packet_time = packet_time t m })
  unfolding answer
  answer_lem t f g m (some n) (is_video v h) = rw ((eq_iff t "video/raw").0 h)
  answer_lem t f g m none (is_video v h) = rw ((eq_iff t "video/raw").0 h)
  answer_lem t f g m (some n) (is_l24 a h _) = rw ((eq_iff t "audio/L24").0 h)
  answer_lem t f g m none (is_l24 a h _) = rw ((eq_iff t "audio/L24").0 h)
  answer_lem t f g m (some n) (is_l16 a h _) = rw ((eq_iff t "audio/L16").0 h)
  answer_lem t f g m none (is_l16 a h _) = rw ((eq_iff t "audio/L16").0 h)

  -- A sender that satisfies `IsConsistent` answers with no exception: with its own payload type or the
  -- default of its media, and with the packet time of "audio/L24", zero for any other media type.
  pub handle_sdp_info_request-answers :
      (config : NmosSender L) (device_id : String)
      → IsConsistent L config
      → handle_sdp_info_request L (new_sender L device_id config)
        ≡ ok (record {
          payload_type = payload config.payload_type config.media;
          packet_time = packet_time config.media_type config.media;
        })
  unfolding handle_sdp_info_request new_sender get_default_pt answer value_or packet_time_of
  handle_sdp_info_request-answers config device_id h =
      answer_lem config.media_type config.format config.grain_rate config.media config.payload_type
        h.agrees
