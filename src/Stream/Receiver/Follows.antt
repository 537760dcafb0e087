-- ===== src/Stream/Receiver/Follows.antt =====
-- The settings of a receiver's stream are those of the SDP file.
use nmos_sender_receiver_fra.Prelude.{
  ℕ, String, ◌≡◌, refl, subst, inl, inr, Option, none, some, Bool-cases,
}
use nmos_sender_receiver_fra.Expected.{
  capabilities_not_array, ok, enforce, Ensures-bind, ok-injective,
}
use nmos_sender_receiver_fra.Prelude.Int.{ℤ, wrap}
use nmos_sender_receiver_fra.Libraries.{Libraries}
use nmos_sender_receiver_fra.Json.Access.{read_text, read_json, find, assign_if}
use nmos_sender_receiver_fra.Configuration.{
  SenderMedia, VideoSenderInfo, AudioSenderInfo, NetworkLeg,
}
use nmos_sender_receiver_fra.Configuration
use nmos_sender_receiver_fra.Serialization.Receiver.{subscript}
use nmos_sender_receiver_fra.Sdp.Settings.{SdpSettings}
use nmos_sender_receiver_fra.Stream.Receiver.{
  ReceiverNetwork, ReceiverVideo, ReceiverAudio, ReceiverFormat, receives_video, receives_audio,
  ReceiverSettings, receiver_network_from_json, translate_sdp_video_settings,
  translate_sdp_audio_settings, address_of, port_of, with_leg, settled, equals_text,
  receiver_format, translate_receiver,
}

module _ (L : Libraries) where
  open L use {json, Json, is_array, elements}

  -- The format received is that of the SDP file, member by member.
  pub data Follows : SenderMedia L → ReceiverFormat L → Type 0 where
    follows_video :
        (v : VideoSenderInfo L) (r : ReceiverVideo)
        → r.width ≡ v.width
        → r.height ≡ v.height
        → r.chroma_sub_sampling ≡ v.chroma_sub_sampling
        → Follows (Configuration.video_info v) (receives_video r)
    follows_audio :
        (a : AudioSenderInfo L) (r : ReceiverAudio L)
        → r.number_of_channels ≡ a.number_of_channels
        → r.bits_per_sample ≡ a.bits_per_sample
        → r.sampling_rate ≡ a.sampling_rate
        → r.packet_time ≡ a.packet_time
        → Follows (Configuration.audio_info a) (receives_audio r)

  -- The address and the port that the leg gives, as a uint16_t.
  abbrev leg_address : Option String → String
  leg_address none = ""
  leg_address (some a) = a

  abbrev leg_port : Option ℤ → Option ℕ
  leg_port none = none
  leg_port (some p) = some (wrap 16 p)

  pub record IsFromSdp (sdp : SdpSettings L) (r : ReceiverSettings L) : Type 0 where
    pub address : r.primary.source_ip_address ≡ leg_address sdp.primary.destination_ip
    pub port : r.primary.source_port ≡ leg_port sdp.primary.destination_port
    pub format : Follows sdp.format r.format

  -- Nothing is known yet of where the stream comes from.
  abbrev NoSource : ReceiverNetwork → Type 0
  NoSource net = (net.source_ip_address ≡ "") × (net.source_port ≡ none)

  network-NoSource :
      (config : Json) (net : ReceiverNetwork)
      → receiver_network_from_json L config ≡ ok net
      → NoSource net
  unfolding receiver_network_from_json
  network-NoSource config =
      Ensures-bind (find json (read_json json) config "primary") _ λ primary _.
        Ensures-bind (assign_if json (read_text json) (λ s. s) primary "interface_name" "") _ λ _ _.
          Ensures-bind (assign_if json (read_text json) (λ s. s) primary "interface_address" "") _
            λ _ _ net h. subst NoSource (ok-injective h) (refl, refl)

  format-Follows :
      (c : Json) (m : SenderMedia L) (f : ReceiverFormat L)
      → receiver_format L c m ≡ ok f
      → Follows m f
  unfolding receiver_format translate_sdp_video_settings translate_sdp_audio_settings
  format-Follows c (Configuration.video_info v) f =
      elim (Bool-cases (equals_text L c "video/raw")) [
        | inl e ↦ rw e (λ h.
            subst (Follows (Configuration.video_info v)) (ok-injective h)
              (follows_video v _ refl refl refl))
        | inr e ↦ rw e (λ h. cc)
      ]
  format-Follows c (Configuration.audio_info a) f =
      elim (Bool-cases (equals_text L c "audio/L24")) [
        | inl e ↦ rw e (λ h.
            subst (Follows (Configuration.audio_info a)) (ok-injective h)
              (follows_audio a _ refl refl refl refl))
        | inr e ↦ rw e (λ h. cc)
      ]

  address_of-empty :
      (old : String) (o : Option String) → old ≡ "" → address_of L old o ≡ leg_address o
  unfolding address_of
  address_of-empty old none h = h
  address_of-empty old (some a) h = refl

  port_of-none : (old : Option ℕ) (o : Option ℤ) → old ≡ none → port_of L old o ≡ leg_port o
  unfolding port_of
  port_of-none old none h = h
  port_of-none old (some p) h = refl

  -- The settings that are accepted have the address, the port and the format of the SDP file.
  pub translate_receiver-IsFromSdp :
      (config : Json) (sdp : SdpSettings L) (r : ReceiverSettings L)
      → translate_receiver L config sdp ≡ ok r
      → IsFromSdp sdp r
  unfolding translate_receiver with_leg
  translate_receiver-IsFromSdp config sdp =
      Ensures-bind (find json (read_json json) config "network") _ λ network _.
        Ensures-bind (receiver_network_from_json L network) _ λ net e.
          Ensures-bind (find json (read_json json) config "capabilities") _ λ capabilities _.
            Ensures-bind (enforce (is_array capabilities) capabilities_not_array) _ λ _ _.
              Ensures-bind (subscript (elements capabilities) 0) _ λ c _.
                Ensures-bind (receiver_format L c sdp.format) _ λ f g.
                  let (a, p) = network-NoSource network net e in
                  Ensures-bind (settled L (with_leg L net sdp.primary).source_port) _ λ _ _ r h.
                    subst (IsFromSdp sdp) (ok-injective h) (record {
                      address = address_of-empty net.source_ip_address sdp.primary.destination_ip a;
                      port = port_of-none net.source_port sdp.primary.destination_port p;
                      format = format-Follows c sdp.format f g;
                    })
