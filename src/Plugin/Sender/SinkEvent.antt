-- ===== src/Plugin/Sender/SinkEvent.antt =====
-- gst_nmossender_sink_event: what the element learns from the caps of its stream.
pub mod Payload
use nmos_sender_receiver_fra.Prelude.{
  ℕ, zero, suc, ◌+◌, ◌-◌, ◌*◌, ◌/◌, ◌%◌, ◌^◌, ◌≤◌, ◌<◌, Char, code, String, ◌≡◌, refl, sym, ap,
  subst, ◌∙◌, ◌≢◌, ◌↔◌, ◌⊎◌, inl, inr, Bool, true, false, not, ◌&&◌, ◌||◌, false≢true, Option, none,
  some, List, [], ◌∷◌, ◌++◌, map, arith, str_eq, eq_iff, eq_refl, ltb, leb, ◌==◌, if◌then◌else◌,
  ltb→lt, leb→le, ==_iff, Bool-cases, Option-cases, if_cases, length, get_elem?, length-append,
  size, drop, take, append, char_at,
}
use nmos_sender_receiver_fra.Prelude.Int.{ℤ, pos}
use nmos_sender_receiver_fra.Plugin.Fields.{
  ConfigFields, VideoMediaFields, AudioMediaFields, translate_video_format,
}
use nmos_sender_receiver_fra.Plugin.Sender.{
  Payloader, video_payloader, audio_payloader_16, audio_payloader_24, Caps, SenderElement,
}

-- GstEvent; caps that are null are none.
pub data Event : Type 0 where
  caps_event : Option Caps → Event
  other_event : Event

get_or : {A : Type 0} → A → Option A → A
get_or old none = old
get_or old (some a) = a

-- A round of the loops over the structures.
read_audio : Caps → AudioMediaFields → AudioMediaFields
unfolding get_or
read_audio caps fields = record fields {
  sampling_rate = get_or fields.sampling_rate caps.rate;
  number_of_channels = get_or fields.number_of_channels caps.channels;
  format = get_or fields.format caps.format;
}

translated : Option String → Option String
translated none = none
translated (some format) = some (translate_video_format format)

read_rate : Option (ℤ × ℤ) → VideoMediaFields → VideoMediaFields
read_rate none fields = fields
read_rate (some (num, den)) fields = record fields { frame_rate_num = num; frame_rate_den = den }

read_video : Caps → VideoMediaFields → VideoMediaFields
unfolding get_or translated read_rate
read_video caps fields = read_rate caps.framerate (record fields {
  width = get_or fields.width caps.width;
  height = get_or fields.height caps.height;
  sampling = get_or fields.sampling (translated caps.format);
})

times : {A : Type 0} → ℕ → (A → A) → A → A
times zero f a = a
times (suc n) f a = times n f (f a)

-- gst_element_link of the queue and the payloader, and of the payloader and udpsink; `first` and
-- `second` are what they return. The result is whether both are linked.
link_through : Payloader → Bool → Bool → SenderElement → SenderElement × Bool
link_through payloader first second self =
    if first
    then (if second
        then (
          record self {
            from_queue = payloader ∷ self.from_queue;
            to_sink = payloader ∷ self.to_sink;
          },
          true,
        )
        else (record self { from_queue = payloader ∷ self.from_queue }, false))
    else (self, false)

set_audio : Caps → SenderElement → SenderElement
unfolding read_audio times
set_audio caps self = record self {
  caps = some caps;
  config = record self.config {
    is_audio = true;
    audio_sender_fields = times caps.size (read_audio caps) self.config.audio_sender_fields;
  };
}

set_video : Caps → SenderElement × Bool → SenderElement × Bool
unfolding read_video times
set_video caps (self, false) = (self, false)
set_video caps (self, true) = (
  record self {
    caps = some caps;
    config = record self.config {
      is_audio = false;
      video_media_fields = times caps.size (read_video caps) self.config.video_media_fields;
    };
  },
  true,
)

audio_payloader : SenderElement → Payloader
audio_payloader self =
    if str_eq self.config.audio_sender_fields.format "S24BE"
    then audio_payloader_24
    else audio_payloader_16

-- The element after the caps, and whether the event is passed on.
on_caps : Bool → Bool → Caps → SenderElement → SenderElement × Bool
unfolding link_through set_audio set_video audio_payloader
on_caps first second caps self =
    if str_eq caps.media_type "audio/x-raw"
    then link_through (audio_payloader (set_audio caps self)) first second (set_audio caps self)
    else if str_eq caps.media_type "video/x-raw"
    then set_video caps (link_through video_payloader first second self)
    else (self, true)

-- An event that is passed on returns what gst_pad_event_default gives, `passed`.
pass_on : Bool → SenderElement × Bool → SenderElement × Bool
pass_on passed (self, b) = (self, b && passed)

unfoldable pub sink_event : Bool → Bool → Bool → Event → SenderElement → SenderElement × Bool
unfolding on_caps pass_on
sink_event first second passed (caps_event (some caps)) self =
    pass_on passed (on_caps first second caps self)
sink_event first second passed (caps_event none) self = (self, passed)
sink_event first second passed other_event self = (self, passed)
