-- ===== src/Plugin/VideoReceiver/Steps/Restart.antt =====
-- When a pipeline is built again, and when it is not.
use nmos_sender_receiver_fra.Prelude.{
  ℕ, ◌+◌, ◌*◌, ◌<◌, String, ◌≡◌, refl, sym, ap, subst, ◌∙◌, ◌≢◌, true, false, Option, none, some,
  arith, if_cases,
}
use nmos_sender_receiver_fra.Expected.{
  Returns, returns, ok, ok-injective, ◌>>=◌, Returns-bind, Returns-then,
}
use nmos_sender_receiver_fra.Plugin.VideoReceiver.{
  Answers, VideoReceiver, take_down, remove_from, remove_old_bin, show, expose, link, assemble,
  build, construct_for, construct_pipeline, set_playing, start_source, clear, is_stalled,
  check_no_data_timeout,
}
use nmos_sender_receiver_fra.Prelude.Int.{ℤ}
use nmos_sender_receiver_fra.Json.Access.{or_thrown}
use nmos_sender_receiver_fra.Libraries.{Libraries}
use nmos_sender_receiver_fra.Json.Api.{Converts}
use nmos_sender_receiver_fra.Configuration.{VideoSenderInfo, video_info}
use nmos_sender_receiver_fra.Sdp.Settings.{SdpSettings}
use nmos_sender_receiver_fra.Sdp.Reader.{SdpLibrary}
use nmos_sender_receiver_fra.Plugin.VideoReceiver.Steps.{Reach}
use nmos_sender_receiver_fra.Plugin.VideoReceiver.Steps.Events.{Reach-IsSourced}

-- GStreamer makes each object.
abbrev pub all_made : ℕ → ℕ → ℕ → ℕ → ℕ → ℕ → ℕ → Answers
all_made b q j d s g p = record {
  bin = some b;
  queue = some q;
  jitter = some j;
  depay = some d;
  linked = true;
  src_pad = some s;
  ghost_pad = some g;
  pad_added = true;
  plugin_pad = some p;
  targeted = true;
}

module _ (L : Libraries) where
  open L use {json, Json}

  -- A pipeline from the objects of GStreamer, whose source was started, and no data yet.
  pub record IsFresh (b p g : ℕ) (ip : String) (port : ℤ) (t : VideoReceiver L) : Type 0 where
    pub pad : t.element_pad ≡ some p
    pub bin : t.bin ≡ some b
    pub shown : t.target ≡ some g
    pub address : t.source_address ≡ some (ip, port)
    pub started : t.source_started ≡ true
    pub clear : t.pipeline_clear ≡ true

  construct-IsFresh :
      (b q j d s g p : ℕ) (ip : String) (port : ℤ) (v : VideoSenderInfo L) (r : VideoReceiver L)
      → r.sdp_settings.primary.destination_ip ≡ some ip
      → r.sdp_settings.primary.destination_port ≡ some port
      → r.sdp_settings.format ≡ video_info v
      → r.pipeline_clear ≡ true
      → Returns (IsFresh b p g ip port) (construct_pipeline L (all_made b q j d s g p) r)
  unfolding construct_pipeline construct_for build assemble link expose show
  construct-IsFresh b q j d s g p ip port v r i o f c =
      let answers = all_made b q j d s g p in
      let built = λ (x : String) (y : ℤ). ok (build L answers v (x, y) (some b) r) in
      subst (λ m. Returns (IsFresh b p g ip port) (construct_for L answers m r)) (sym f)
        (Returns-bind (λ x. or_thrown r.sdp_settings.primary.destination_port >>= λ y. built x y)
          (ap or_thrown i)
          (Returns-bind (built ip) (ap or_thrown o) (
            returns (record {
              pad = refl;
              bin = refl;
              shown = refl;
              address = refl;
              started = refl;
              clear = c;
            }))))

  remove_from-settings :
      (o : Option ℕ) (r : VideoReceiver L) → (remove_from L o r).sdp_settings ≡ r.sdp_settings
  unfolding remove_from take_down
  remove_from-settings none r = refl
  remove_from-settings (some pad) r = refl

  remove_from-clear :
      (o : Option ℕ) (r : VideoReceiver L) → (remove_from L o r).pipeline_clear ≡ r.pipeline_clear
  unfolding remove_from take_down
  remove_from-clear none r = refl
  remove_from-clear (some pad) r = refl

  stalled_after :
      (now : ℕ) (r : VideoReceiver L)
      → r.pipeline_clear ≡ false
      → r.last_buffer_time + 6 * 1000000 < now
      → is_stalled L now r ≡ true
  stalled_after now r e lt = ground arith

  set_playing-IsFresh :
      (b p g : ℕ) (ip : String) (port : ℤ) (t : VideoReceiver L)
      → IsFresh b p g ip port t
      → IsFresh b p g ip port (set_playing L t)
  set_playing-IsFresh b p g ip port t h = record {
    pad = h.pad;
    bin = h.bin;
    shown = h.shown;
    address = h.address;
    started = h.started;
    clear = h.clear;
  }

  module _ (c : Converts json) (S : SdpLibrary L) (G : Answers → Type 0) where
    -- In a state that is reached, once data came and then failed to come for six seconds, and unless
    -- the user stopped it, the next check, where GStreamer makes each object, gives the element a new
    -- pipeline that receives from the same address.
    pub check-IsFresh :
        {memory : SdpSettings L} {start : ℕ} {r : VideoReceiver L} (b q j d s g p now : ℕ)
        → Reach L S G memory start r
        → r.element_pad ≢ none
        → r.user_forced_stop ≡ false
        → r.pipeline_clear ≡ false
        → r.last_buffer_time + 6 * 1000000 < now
        → (ip : String) × (port : ℤ) × (r.source_address ≡ some (ip, port))
          × Returns (IsFresh b p g ip port) (check_no_data_timeout L now (all_made b q j d s g p) r)
    unfolding check_no_data_timeout remove_old_bin
    check-IsFresh {r = r} b q j d s g p now reach h u e lt =
        let sourced = Reach-IsSourced L S c G reach in
        let f = sourced.follows h in
        let taken = ok-injective (sym (sourced.seen e).parsed ∙ f.parsed) in
        let settings = remove_from-settings r.element_pad (clear L r) in
        let built =
          construct-IsFresh b q j d s g p f.ip f.port f.video
            (start_source L (remove_from L r.element_pad (clear L r)))
            (ap (λ x. (SdpSettings.primary x).destination_ip) (settings ∙ taken) ∙ f.destination_ip)
            (ap (λ x. (SdpSettings.primary x).destination_port) (settings ∙ taken)
              ∙ f.destination_port)
            (ap (λ x. SdpSettings.format x) (settings ∙ taken) ∙ f.format)
            (remove_from-clear r.element_pad (clear L r)) in
        (
          f.ip,
          f.port,
          f.address,
          if_cases (Returns (IsFresh b p g f.ip f.port)) r.user_forced_stop (λ k. cc)
              λ _.
                if_cases (Returns (IsFresh b p g f.ip f.port)) (is_stalled L now r)
                  (λ _. Returns-then _ built (λ t k. set_playing-IsFresh b p g f.ip f.port t k))
                  (λ k. let m = stalled_after now r e lt in cc),
        )
