-- ===== src/Plugin/Sender/SinkEvent/Payload.antt =====
-- The payloader of a stream and the media type that the node is told.
use nmos_sender_receiver_fra.Prelude.{
  String, ◌≡◌, refl, ap, subst, inl, inr, Bool, true, false, ◌||◌, some, ◌∷◌, str_eq, if◌then◌else◌,
  Bool-cases, if_same,
}
use nmos_sender_receiver_fra.Plugin.Fields.{ConfigFields}
use nmos_sender_receiver_fra.Plugin.Configs.{audio_media_type}
use nmos_sender_receiver_fra.Plugin.Sender.{
  Payloader, video_payloader, audio_payloader_16, audio_payloader_24, Caps, SenderElement,
}
use nmos_sender_receiver_fra.Plugin.Sender.SinkEvent.{
  caps_event, link_through, set_audio, set_video, audio_payloader, on_caps, pass_on, sink_event,
}

-- What the payloaders make.
abbrev pub payload : Payloader → String
payload video_payloader = "video/raw"
payload audio_payloader_16 = "audio/L16"
payload audio_payloader_24 = "audio/L24"

-- The media type of the configuration that create_nmos chooses.
abbrev pub configured : ConfigFields → String
configured config =
    if config.is_audio then audio_media_type config.audio_sender_fields.format else "video/raw"

-- The stream goes through one more payloader, which makes what the configuration says.
pub record IsLinked (before after : SenderElement) : Type 0 where
  pub payloader : Payloader
  pub from_queue : after.from_queue ≡ payloader ∷ before.from_queue
  pub to_sink : after.to_sink ≡ payloader ∷ before.to_sink
  pub told : configured after.config ≡ payload payloader

audio_payloader-payload :
    (s : SenderElement)
    → audio_media_type s.config.audio_sender_fields.format ≡ payload (audio_payloader s)
unfolding audio_payloader
audio_payloader-payload s = elim (Bool-cases (str_eq s.config.audio_sender_fields.format "S24BE")) [
  | inl e ↦ rw e refl
  | inr e ↦ rw e (if_same (str_eq s.config.audio_sender_fields.format "S16BE") "audio/L16")
]

audio-IsLinked :
    (first second passed : Bool) (caps : Caps) (s t : SenderElement)
    → pass_on passed
        (link_through (audio_payloader (set_audio caps s)) first second (set_audio caps s))
      ≡ (t, true)
    → IsLinked s t
unfolding pass_on link_through set_audio
audio-IsLinked false second passed caps s t e = cc
audio-IsLinked true false passed caps s t e = cc
audio-IsLinked true true passed caps s t e = subst (IsLinked s) (ap (λ x. x.0) e) (record {
  payloader = audio_payloader (set_audio caps s);
  from_queue = refl;
  to_sink = refl;
  told = audio_payloader-payload (set_audio caps s);
})

video-IsLinked :
    (first second passed : Bool) (caps : Caps) (s t : SenderElement)
    → pass_on passed (set_video caps (link_through video_payloader first second s)) ≡ (t, true)
    → IsLinked s t
unfolding pass_on link_through set_video
video-IsLinked false second passed caps s t e = cc
video-IsLinked true false passed caps s t e = cc
video-IsLinked true true passed caps s t e =
    subst (IsLinked s) (ap (λ x. x.0) e)
      (record { payloader = video_payloader; from_queue = refl; to_sink = refl; told = refl })

-- Once the caps of a stream of audio or video are accepted, the queue and udpsink are linked through
-- one more payloader, and the configuration tells the node the media type that it makes.
pub sink_event-IsLinked :
    (first second passed : Bool) (caps : Caps) (s t : SenderElement)
    → (str_eq caps.media_type "audio/x-raw" || str_eq caps.media_type "video/x-raw") ≡ true
    → sink_event first second passed (caps_event (some caps)) s ≡ (t, true)
    → IsLinked s t
unfolding sink_event on_caps
sink_event-IsLinked first second passed caps s t m =
    elim (Bool-cases (str_eq caps.media_type "audio/x-raw")) [
      | inl a ↦ rw a (audio-IsLinked first second passed caps s t)
      | inr a ↦ elim (Bool-cases (str_eq caps.media_type "video/x-raw")) [
        | inl v ↦ rw (a, v) (video-IsLinked first second passed caps s t)
        | inr v ↦ cc
      ]
    ]
