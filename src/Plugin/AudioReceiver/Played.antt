-- ===== src/Plugin/AudioReceiver/Played.antt =====
-- The pipeline of a new SDP file of audio.
use nmos_sender_receiver_fra.Prelude.{
  ℕ, String, ◌≡◌, refl, sym, ap, subst, ◌∙◌, true, false, Option, none, some, [], ◌∷◌, str_eq, ◌==◌,
  if◌then◌else◌, if_cases,
}
use nmos_sender_receiver_fra.Prelude.Int.{ℤ}
use nmos_sender_receiver_fra.Expected.{Returns, returns, ok, ◌>>=◌, Returns-bind, Returns-then}
use nmos_sender_receiver_fra.Libraries.{Libraries}
use nmos_sender_receiver_fra.Json.Access.{or_thrown}
use nmos_sender_receiver_fra.Configuration.{AudioSenderInfo, audio_info}
use nmos_sender_receiver_fra.Sdp.Settings.{SdpSettings}
use nmos_sender_receiver_fra.Sdp.Reader.{SdpLibrary, parse_sdp}
use nmos_sender_receiver_fra.Plugin.Params.{first_param, rtp_enabled}
use nmos_sender_receiver_fra.Plugin.AudioReceiver.{
  Answers, Elements, AudioReceiver, take_down, remove_from, remove_old_bin, show, ghosted, expose,
  link, assemble, all_of, build, construct_for, construct_pipeline, set_playing, set_settings,
  rebuild, take_settings, enable, on_activation,
}
use nmos_sender_receiver_fra.Plugin.AudioReceiver.Tidy.{IsTidy-as}
use nmos_sender_receiver_fra.Plugin.AudioReceiver.Tidy.Reached.{Reach, Reach-IsTidy}

-- GStreamer makes each object.
abbrev pub all_made : ℕ → Elements → ℕ → ℕ → ℕ → Answers
all_made b e s g p = record {
  bin = some b;
  udp_src = some e.udp_src;
  queue = some e.queue;
  jitter = some e.rtp_jitter_buffer;
  depay_16 = some e.rtp_audio_depay_16;
  depay_24 = some e.rtp_audio_depay_24;
  linked = true;
  src_pad = some s;
  ghost_pad = some g;
  pad_added = true;
  plugin_pad = some p;
  targeted = true;
}

module _ (L : Libraries) where
  open L use {json, Json}

  -- The new bin is the only one in the element, and shown by its pad; it receives the audio of the SDP
  -- file through the depayloader for its sample size, and the element was set to PLAYING.
  pub record Plays (b g : ℕ) (e : Elements) (ip : String) (port : ℤ) (audio : AudioSenderInfo L)
      (sdp : String) (t : AudioReceiver L) : Type 0 where
    pub bin : t.bin ≡ some b
    pub only : t.bins ≡ b ∷ []
    pub playing : t.playing ≡ true
    pub shown : t.target ≡ some g
    pub address : t.source_address ≡ some (ip, port)
    pub caps : t.caps ≡ some audio
    pub depay :
        t.depay
        ≡ some (if audio.bits_per_sample == 16 then e.rtp_audio_depay_16 else e.rtp_audio_depay_24)
    pub taken : t.sdp_string ≡ sdp

  -- The same, before the element is set to PLAYING.
  record IsBuilt (b g : ℕ) (e : Elements) (ip : String) (port : ℤ) (audio : AudioSenderInfo L)
      (sdp : String) (t : AudioReceiver L) : Type 0 where
    bin : t.bin ≡ some b
    only : t.bins ≡ b ∷ []
    shown : t.target ≡ some g
    address : t.source_address ≡ some (ip, port)
    caps : t.caps ≡ some audio
    depay :
        t.depay
        ≡ some (if audio.bits_per_sample == 16 then e.rtp_audio_depay_16 else e.rtp_audio_depay_24)
    taken : t.sdp_string ≡ sdp

  construct-IsBuilt :
      (b s g p : ℕ) (e : Elements) (ip : String) (port : ℤ) (audio : AudioSenderInfo L)
      (sdp : String) (r : AudioReceiver L)
      → r.sdp_settings.primary.destination_ip ≡ some ip
      → r.sdp_settings.primary.destination_port ≡ some port
      → r.sdp_settings.format ≡ audio_info audio
      → r.sdp_string ≡ sdp
      → r.bins ≡ []
      → Returns (IsBuilt b g e ip port audio sdp) (construct_pipeline L (all_made b e s g p) r)
  unfolding construct_pipeline construct_for build assemble all_of link expose ghosted show
  construct-IsBuilt b s g p e ip port audio sdp r i o f n none_in =
      let answers = all_made b e s g p in
      let built = λ (x : String) (y : ℤ). ok (build L answers audio (x, y) (some b) r) in
      subst (λ m. Returns (IsBuilt b g e ip port audio sdp) (construct_for L answers m r)) (sym f)
        (Returns-bind (λ x. or_thrown r.sdp_settings.primary.destination_port >>= λ y. built x y)
          (ap or_thrown i)
          (Returns-bind (built ip) (ap or_thrown o) (
            returns (record {
              bin = refl;
              only = ap (λ bs. b ∷ bs) none_in;
              shown = refl;
              address = refl;
              caps = refl;
              depay = refl;
              taken = n;
            }))))

  set_playing-Plays :
      (b g : ℕ) (e : Elements) (ip : String) (port : ℤ) (audio : AudioSenderInfo L) (sdp : String)
      (t : AudioReceiver L)
      → IsBuilt b g e ip port audio sdp t
      → Plays b g e ip port audio sdp (set_playing L t)
  set_playing-Plays b g e ip port audio sdp t h = record {
    bin = h.bin;
    only = h.only;
    playing = refl;
    shown = h.shown;
    address = h.address;
    caps = h.caps;
    depay = h.depay;
    taken = h.taken;
  }

  remove_from-kept :
      (o : Option ℕ) (r : AudioReceiver L)
      → ((remove_from L o r).sdp_settings ≡ r.sdp_settings)
        × ((remove_from L o r).sdp_string ≡ r.sdp_string)
  unfolding remove_from take_down
  remove_from-kept none r = (refl, refl)
  remove_from-kept (some pad) r = (refl, refl)

  rebuild-Plays :
      (b s g p : ℕ) (e : Elements) (ip : String) (port : ℤ) (audio : AudioSenderInfo L)
      (sdp : String) (r : AudioReceiver L)
      → r.sdp_settings.primary.destination_ip ≡ some ip
      → r.sdp_settings.primary.destination_port ≡ some port
      → r.sdp_settings.format ≡ audio_info audio
      → r.sdp_string ≡ sdp
      → (remove_from L r.element_pad r).bins ≡ []
      → Returns (Plays b g e ip port audio sdp) (rebuild L (all_made b e s g p) r)
  unfolding rebuild remove_old_bin
  rebuild-Plays b s g p e ip port audio sdp r i o f n none_in =
      let (k, l) = remove_from-kept r.element_pad r in
      Returns-then (set_playing L)
        (construct-IsBuilt b s g p e ip port audio sdp (remove_from L r.element_pad r)
          (ap (λ x. (SdpSettings.primary x).destination_ip) k ∙ i)
          (ap (λ x. (SdpSettings.primary x).destination_port) k ∙ o)
          (ap (λ x. SdpSettings.format x) k ∙ f) (l ∙ n) none_in)
        (λ t h. set_playing-Plays b g e ip port audio sdp t h)

  module _ (S : SdpLibrary L) where
    -- Where GStreamer makes each object, an element that was made, activated and changed in any way, and
    -- is then enabled with an SDP file of audio, not that which it took last, plays that audio from the
    -- SDP file's address, through the depayloader for its sample size, in the only bin that is in it.
    pub enabled-Plays :
        (b s g p : ℕ) (e : Elements) (ip : String) (port : ℤ) (audio : AudioSenderInfo L)
        (sdp : String) (settings memory : SdpSettings L) (params : Json) (r : AudioReceiver L)
        → Reach L S memory r
        → rtp_enabled json (first_param json params) ≡ ok true
        → parse_sdp L S sdp ≡ ok settings
        → str_eq sdp r.sdp_string ≡ false
        → settings.primary.destination_ip ≡ some ip
        → settings.primary.destination_port ≡ some port
        → settings.format ≡ audio_info audio
        → Returns
            (Plays b g e ip port audio sdp)
            (on_activation L S (all_made b e s g p) (some sdp) true params r)
    unfolding on_activation enable take_settings remove_old_bin
    enabled-Plays b s g p e ip port audio sdp settings memory params r reach en parsed new i o f =
        let tidy =
          IsTidy-as L r (set_settings L settings sdp r) (Reach-IsTidy L S memory r reach) refl refl
            refl in
        rw (en, parsed)
          (if_cases (Returns (Plays b g e ip port audio sdp)) (str_eq sdp r.sdp_string) (λ k. cc)
            (λ _.
              rebuild-Plays b s g p e ip port audio sdp (set_settings L settings sdp r) i o f refl
                tidy.cleared))
