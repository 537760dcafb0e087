-- ===== src/Serialization/Sender/Consistent.antt =====
-- What every accepted sender satisfies, and what happens to one with no id.
use nmos_sender_receiver_fra.Prelude.{
  ℕ, String, ◌≡◌, refl, sym, ap, subst, ◌∙◌, ◌≢◌, inl, inr, true, false, false≢true, some, str_eq,
  eq_iff, Bool-cases,
}
use nmos_sender_receiver_fra.Expected.{Error, ok, unexpected, thrown, Ensures-bind, ok-injective}
use nmos_sender_receiver_fra.Libraries.{Libraries}
use nmos_sender_receiver_fra.Json.Api.{Converts}
use nmos_sender_receiver_fra.Json.Access.{
  read_text, read_boolean, read_word, read_int, read_float, read_json, find, find_or, maybe_find,
  assign_if_or_value,
}
use nmos_sender_receiver_fra.Json.Access.Laws.{IsSound-read_text}
use nmos_sender_receiver_fra.Json.Access.Members.{assign_if_or_value-returns}
use nmos_sender_receiver_fra.Configuration.{
  Format, video, audio, empty_meta, VideoSenderInfo, AudioSenderInfo, SenderMedia, video_info,
  audio_info, NmosSender,
}
use nmos_sender_receiver_fra.Serialization.Common.{nmos_meta_from_json, network_from_json}
use nmos_sender_receiver_fra.Serialization.Receiver.{rtp_mcast}
use nmos_sender_receiver_fra.Serialization.SenderId.{last_char, synthetize_id}
use nmos_sender_receiver_fra.Serialization.Sender.{
  audio_sender_info, video_sender_info_from_json, audio_l24_sender_info_from_json,
  audio_l16_sender_info_from_json, media_from_json, forced, get_extra, nmos_sender_from_json,
}

module _ (L : Libraries) where
  open L use {json, Json, Rational, of_int, find_member}

  -- The media fits the media type, and the format and the grain rate fit the media.
  pub data Agrees (t : String) : SenderMedia L → Format → Rational → Type 0 where
    is_video :
        (v : VideoSenderInfo L)
        → str_eq t "video/raw" ≡ true
        → Agrees t (video_info v) video v.exact_framerate
    is_l24 :
        (a : AudioSenderInfo L)
        → str_eq t "audio/L24" ≡ true
        → a.bits_per_sample ≡ 24
        → Agrees t (audio_info a) audio (of_int a.sampling_rate)
    is_l16 :
        (a : AudioSenderInfo L)
        → str_eq t "audio/L16" ≡ true
        → a.bits_per_sample ≡ 16
        → Agrees t (audio_info a) audio (of_int a.sampling_rate)

  audio_sender_info-bits :
      (bits : ℕ) (media : Json) (a : AudioSenderInfo L)
      → audio_sender_info L bits media ≡ ok a
      → a.bits_per_sample ≡ bits
  unfolding audio_sender_info
  audio_sender_info-bits bits media =
      Ensures-bind (find json (read_int json) media "number_of_channels") _ λ _ _.
        Ensures-bind (find json (read_int json) media "sampling_rate") _ λ _ _.
          Ensures-bind (find json (read_float json) media "packet_time") _
            λ _ _ a h. sym (ap (λ (x : AudioSenderInfo L). x.bits_per_sample) (ok-injective h))

  abbrev AgreesAll : String → SenderMedia L × Format × Rational → Type 0
  AgreesAll t (m, f, g) = Agrees t m f g

  media_from_json-Agrees :
      (t : String) (media : Json) (p : SenderMedia L × Format × Rational)
      → media_from_json L t media ≡ ok p
      → AgreesAll t p
  unfolding media_from_json audio_l24_sender_info_from_json audio_l16_sender_info_from_json
  media_from_json-Agrees t media = elim (Bool-cases (str_eq t "video/raw")) [
    | inl v ↦ rw v (
        Ensures-bind (video_sender_info_from_json L media) _
          λ info _ p h. subst (AgreesAll t) (ok-injective h) (is_video info v))
    | inr v ↦ elim (Bool-cases (str_eq t "audio/L24")) [
      | inl a ↦
          rw (v, a)
            (Ensures-bind (audio_sender_info L 24 media) _ λ info e p h.
              subst (AgreesAll t) (ok-injective h)
                (is_l24 info a (audio_sender_info-bits 24 media info e)))
      | inr a ↦ elim (Bool-cases (str_eq t "audio/L16")) [
        | inl b ↦
            rw (v, a, b)
              (Ensures-bind (audio_sender_info L 16 media) _ λ info e p h.
                subst (AgreesAll t) (ok-injective h)
                  (is_l16 info b (audio_sender_info-bits 16 media info e)))
        | inr b ↦ rw (v, a, b) (λ p h. cc)
      ]
    ]
  ]

  pub record IsConsistent (s : NmosSender L) : Type 0 where
    pub agrees : Agrees s.media_type s.media s.format s.grain_rate
    pub flow_id : synthetize_id s.id 1 ≡ ok s.flow.id
    pub source_id : synthetize_id s.id 2 ≡ ok s.source.id
    pub labels : (s.flow.label ≡ s.label) × (s.source.label ≡ s.label)
    pub descriptions : (s.flow.description ≡ s.description) × (s.source.description ≡ s.description)
    pub sdp_not_empty : s.forced_sdp ≢ some ""

  forced-ne : (s : String) → forced s ≢ some ""
  unfolding forced
  forced-ne s = elim (Bool-cases (str_eq s "")) [
    | inl e ↦ rw (e, forced) (λ h. cc)
    | inr e ↦ rw (e, forced) (λ h. false≢true (sym e ∙ (eq_iff s "").1 (cc (h))))
  ]

  -- An accepted sender: its media, format and grain rate agree with its media type, its flow and source
  -- have the ids made from the sender's, and its label and description, and no forced SDP is empty.
  pub nmos_sender_from_json-IsConsistent :
      (config : Json) (s : NmosSender L) → nmos_sender_from_json L config ≡ ok s → IsConsistent s
  unfolding nmos_sender_from_json
  nmos_sender_from_json-IsConsistent config =
      Ensures-bind (nmos_meta_from_json L config empty_meta) _ λ (meta, _) _.
        Ensures-bind
          (assign_if_or_value json (read_text json) (λ s. s) config "protocol" "" rtp_mcast) _
          λ _ _. Ensures-bind (synthetize_id meta.id 1) _ λ flow_id f.
            Ensures-bind (synthetize_id meta.id 2) _ λ source_id s.
              Ensures-bind
                (assign_if_or_value json (read_boolean json) (λ b. b) config "master_enable" false
                  true)
                _
                λ _ _. Ensures-bind (find json (read_json json) config "network") _ λ network _.
                  Ensures-bind (network_from_json L network false) _ λ _ _.
                    Ensures-bind (find json (read_text json) config "media_type") _ λ media_type _.
                      Ensures-bind (maybe_find json (read_word json 8) config "payload_type") _
                        λ _ _. Ensures-bind (find json (read_json json) config "media") _ λ media _.
                          Ensures-bind (media_from_json L media_type media) _ λ p e.
                            Ensures-bind (find_or json (read_text json) config "sdp" "") _ λ sdp _.
                              Ensures-bind (get_extra L config "sender") _ λ _ _.
                                Ensures-bind (get_extra L config "flow") _ λ _ _ r h.
                                  subst IsConsistent (ok-injective h) (record {
                                    agrees = media_from_json-Agrees media_type media p e;
                                    flow_id = f;
                                    source_id = s;
                                    labels = (refl, refl);
                                    descriptions = (refl, refl);
                                    sdp_not_empty = forced-ne sdp;
                                  })

  -- Without a text under "id" the meta data keep their empty id, and the function goes on.
  meta_unnamed :
      (config : Json) (e : Error)
      → find json (read_text json) config "id" ≡ unexpected e
      → nmos_meta_from_json L config empty_meta ≡ ok (empty_meta, unexpected e)
  unfolding nmos_meta_from_json
  meta_unnamed config e h = rw (h, nmos_meta_from_json)

  synthetize_id-empty : (delta : ℕ) → synthetize_id "" delta ≡ thrown
  unfolding synthetize_id last_char
  synthetize_id-empty delta = refl

  -- Where the JSON library converts what it accepts: for a configuration with no text under "id", an
  -- exception leaves `nmos_sender_from_json`, and no error is returned.
  pub nmos_sender_from_json-unnamed :
      (config : Json) (e : Error)
      → Converts json
      → find json (read_text json) config "id" ≡ unexpected e
      → nmos_sender_from_json L config ≡ thrown
  unfolding nmos_sender_from_json
  nmos_sender_from_json-unnamed config e c h =
      let (p, a) =
        assign_if_or_value-returns json (read_text json) (IsSound-read_text json c) (λ s. s) ""
          rtp_mcast config "protocol" in
      rw (meta_unnamed config e h, a, synthetize_id-empty 1)
