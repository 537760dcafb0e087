-- ===== src/Sdp/Reader/Outcome.antt =====
-- What a call of parse_sdp can give.
use nmos_sender_receiver_fra.Prelude.{
  ℕ, ◌^◌, ◌<◌, String, ◌≡◌, refl, ◌⊎◌, inl, inr, not, ◌&&◌, ◌||◌, Option, none, some, List, [], ◌∷◌,
  arith, str_eq,
}
use nmos_sender_receiver_fra.Expected.{
  Expected, Safe, is_ok, is_error, other, ok, unexpected, Safe-enforce, Safe-map,
}
use nmos_sender_receiver_fra.Prelude.Int.{ℤ, pos, wrap}
use nmos_sender_receiver_fra.Expected.Caught.{
  Caught, caught_ok, caught_error, caught_exception, Caught-bind, Safe-Caught, Caught-or_thrown,
  Caught-if,
}
use nmos_sender_receiver_fra.Libraries.{Libraries}
use nmos_sender_receiver_fra.Json.Api.{Converts}
use nmos_sender_receiver_fra.Json.Access.{read_text, read_word, get_as}
use nmos_sender_receiver_fra.Json.Access.Laws.{IsSound-read_text, get_as-Safe}
use nmos_sender_receiver_fra.Json.Select.{select, Mapper, element, index, name_value}
use nmos_sender_receiver_fra.Json.Select.Outcome.{
  IsTotal, AreTotal, element-IsTotal, index-IsTotal, name_value-IsTotal, get_as_word-Safe,
  select-Caught,
}
use nmos_sender_receiver_fra.Configuration.{NetworkLeg, SenderMedia, video_info, audio_info}
use nmos_sender_receiver_fra.Sdp.Mac.Codec.{to_mac_address-Safe}
use nmos_sender_receiver_fra.Stdlib.Stoi.{stoi}
use nmos_sender_receiver_fra.Sdp.Settings.{SdpSettings}
use nmos_sender_receiver_fra.Sdp.Reader.{
  TsRefClk, MediaClkSource, to_refclk, named_clock, ptp_clock, domain_of, split_colon, to_mediaclk,
  offset_of, AudioParameters, VideoParameters, Parameters, SdpLibrary, first_media,
  to_network_settings, bits_of, get_raw_audio_params, is_zero, get_raw_video_params, format_of,
  catching, parse_json, read_session, parse_sdp,
}

-- Where a stream is received: an address, and a port of 16 bits.
abbrev pub IsAddressed : NetworkLeg → Type 0
IsAddressed leg =
    (ip : String) × (n : ℕ) × (leg.destination_ip ≡ some ip)
    × (leg.destination_port ≡ some (pos n))
    × (n < 2 ^ 16)

module _ (L : Libraries) where
  Caught-catching :
      {A : Type 0} {P : A → Type 0} {m : Expected A} → Caught P m → Safe P (catching L m)
  unfolding catching
  Caught-catching (caught_ok h) = is_ok h
  Caught-catching caught_error = is_error
  Caught-catching caught_exception = is_error

  open L use {json, Json}

  -- Audio samples have 16 or 24 bits.
  abbrev pub HasSampleSize : SenderMedia L → Type 0
  HasSampleSize (video_info v) = Unit
  HasSampleSize (audio_info a) = (a.bits_per_sample ≡ 16) ⊎ (a.bits_per_sample ≡ 24)

  -- The settings are enough to build a pipeline.
  abbrev pub IsPlayable : SdpSettings L → Type 0
  IsPlayable s = IsAddressed s.primary × HasSampleSize s.format × (s.payload_type < 2 ^ 8)

  bits_of-Caught : (s : String) → Caught (λ b. (b ≡ 16) ⊎ (b ≡ 24)) (bits_of L s)
  unfolding bits_of
  bits_of-Caught s =
      Caught-if (str_eq s "L16") (caught_ok (inl refl))
        (Caught-if (str_eq s "L24") (caught_ok (inr refl)) caught_error)

  domain_of-Caught : (o : Option (ℤ × ℕ)) → Caught (λ _. Unit {0}) (domain_of o)
  unfolding domain_of
  domain_of-Caught none = caught_exception
  domain_of-Caught (some x) = caught_ok tt

  ptp_clock-Caught :
      (s : String) (o : Option (String × String)) → Caught (λ _. Unit {0}) (ptp_clock s o)
  unfolding ptp_clock
  ptp_clock-Caught s none = caught_ok tt
  ptp_clock-Caught s (some (_, domain)) =
      Caught-bind _ (domain_of-Caught (stoi 10 domain)) λ _ _. caught_ok tt

  to_refclk-Caught : (ps : List TsRefClk) → Caught (λ _. Unit {0}) (to_refclk ps)
  unfolding to_refclk named_clock
  to_refclk-Caught [] = caught_error
  to_refclk-Caught (p ∷ []) =
      Caught-if (str_eq p.clock_source "localmac")
        (Caught-bind _ (Safe-Caught (to_mac_address-Safe p.mac_address)) λ _ _. caught_ok tt)
        (Caught-if (str_eq p.clock_source "ptp")
          (ptp_clock-Caught p.ptp_server (split_colon p.ptp_server)) caught_error)
  to_refclk-Caught (p ∷ q ∷ ps) = caught_error

  offset_of-Caught : (o : Option (ℤ × ℕ)) → Caught (λ _. Unit {0}) (offset_of o)
  unfolding offset_of
  offset_of-Caught none = caught_exception
  offset_of-Caught (some x) = caught_ok tt

  to_mediaclk-Caught : (p : MediaClkSource) → Caught (λ _. Unit {0}) (to_mediaclk p)
  unfolding to_mediaclk
  to_mediaclk-Caught p =
      Caught-if (str_eq p.clock_source "direct") (offset_of-Caught _)
        (Caught-if (str_eq p.clock_source "sender") (caught_ok tt) caught_error)

  audio-Caught :
      (a : Option (AudioParameters L)) (s : String)
      → Caught (λ i. HasSampleSize (audio_info i)) (get_raw_audio_params L a s)
  unfolding get_raw_audio_params
  audio-Caught a s =
      Caught-bind _ (Caught-or_thrown a) λ _ _. Caught-bind _ (bits_of-Caught s) λ _ h. caught_ok h

  video-Caught :
      (v : Option (VideoParameters L)) → Caught (λ _. Unit {0}) (get_raw_video_params L v)
  unfolding get_raw_video_params
  video-Caught v = Caught-bind _ (Caught-or_thrown v) λ p _.
      Caught-bind _ (Safe-Caught (Safe-enforce (not (is_zero L p.width || is_zero L p.height)) _))
        λ _ _.
          Caught-bind _ (Caught-or_thrown (L.make_rational p.numerator p.denominator))
            λ _ _. caught_ok tt

  format_of-Caught : (p : Parameters L) → Caught HasSampleSize (format_of L p)
  unfolding format_of
  format_of-Caught p =
      Caught-if (str_eq p.media_type "video" && str_eq p.encoding_name "raw")
        (Caught-bind _ (video-Caught p.video) λ _ _. caught_ok tt)
        (Caught-if (str_eq p.media_type "audio")
          (Caught-bind _ (Caught-or_thrown p.audio)
            λ _ _. Caught-bind _ (audio-Caught p.audio p.encoding_name) λ _ h. caught_ok h)
          caught_error)

  wrap-lt : (x : ℤ) → wrap 8 x < 2 ^ 8
  wrap-lt (pos n) = omega arith
  wrap-lt (ℤ.negsuc n) = omega arith

  module _ (c : Converts json) where
    text-Safe : (j : Json) → Safe (λ _. Unit {0}) (get_as json (read_text json) j)
    text-Safe j =
        Safe-map (λ _ _. tt) (get_as-Safe json (read_text json) (IsSound-read_text json c) j)

    media-AreTotal : (ms : List (Mapper json)) → AreTotal json ms → AreTotal json (first_media L ms)
    media-AreTotal ms h = (element-IsTotal json "media_descriptions", (index-IsTotal json 0, h))

    -- A text of the media description behind a path of selectors.
    media_text-Caught :
        (ms : List (Mapper json)) (j : Json)
        → AreTotal json ms
        → Caught (λ _. Unit {0}) (select json (read_text json) j (first_media L ms))
    media_text-Caught ms j h = select-Caught json _ _ text-Safe (media-AreTotal ms h) j

    media_port-Caught :
        (ms : List (Mapper json)) (j : Json)
        → AreTotal json ms
        → Caught (λ n. n < 2 ^ 16) (select json (read_word json 16) j (first_media L ms))
    media_port-Caught ms j h =
        select-Caught json _ _ (get_as_word-Safe json c 16) (media-AreTotal ms h) j

    filter-IsTotal : IsTotal json (name_value json "source-filter")
    filter-IsTotal = name_value-IsTotal json c "source-filter"

    network-Caught : (j : Json) → Caught IsAddressed (to_network_settings L j)
    unfolding to_network_settings
    network-Caught j =
        let of_element = element-IsTotal json in
        Caught-bind _
          (media_port-Caught (element json "media" ∷ element json "port" ∷ []) j
            (of_element "media", (of_element "port", tt)))
          λ port lt.
            Caught-bind _
              (media_text-Caught
                (element json "attributes"
                  ∷ name_value json "source-filter"
                  ∷ element json "destination_address"
                  ∷ [])
                j
                (of_element "attributes", (filter-IsTotal, (of_element "destination_address", tt))))
              λ ip _.
                Caught-bind _
                  (media_text-Caught
                    (element json "attributes"
                      ∷ name_value json "source-filter"
                      ∷ element json "source_addresses"
                      ∷ index json 0
                      ∷ [])
                    j
                    (
                      of_element "attributes",
                      (filter-IsTotal, (of_element "source_addresses", (index-IsTotal json 0, tt))),
                    ))
                  λ _ _. caught_ok (ip, port, refl, refl, lt)

    module _ (S : SdpLibrary L) where
      json-Caught : (s : String) → Caught (λ _. Unit {0}) (parse_json L S s)
      unfolding parse_json
      json-Caught s =
          elim (L.parse s)
            as (λ o.
              Caught (λ _. Unit {0})
                (elim o [ none ↦ unexpected (other "invalid JSON") | some j ↦ ok j ])) [
                  | none ↦ caught_error
                  | some j ↦ caught_ok tt
                ]

      -- Where the JSON library converts what it accepts, parse_sdp gives settings or an error for
      -- every text, whatever the SDP library throws; the settings have an address, a port of 16 bits,
      -- a payload type of 8 bits and, for audio, samples of 16 or 24 bits.
      pub parse_sdp-Safe : (sdp : String) → Safe IsPlayable (parse_sdp L S sdp)
      unfolding parse_sdp read_session
      parse_sdp-Safe sdp = Caught-catching (
          Caught-bind _ (Caught-or_thrown (S.parse_session sdp)) λ parsed _.
            Caught-bind _ (Caught-or_thrown (S.parameters parsed)) λ p _.
              Caught-bind _ (json-Caught (S.serialize parsed)) λ j _.
                Caught-bind _ (to_mediaclk-Caught p.mediaclk) λ _ _.
                  Caught-bind _ (to_refclk-Caught p.ts_refclk) λ _ _.
                    Caught-bind _ (network-Caught j) λ _ h.
                      Caught-bind _ (format_of-Caught p)
                        λ _ k. caught_ok (h, k, wrap-lt p.payload_type))
