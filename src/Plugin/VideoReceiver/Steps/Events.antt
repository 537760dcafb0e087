-- ===== src/Plugin/VideoReceiver/Steps/Events.antt =====
-- The events of an element that receives video, in every state that is reached.
use nmos_sender_receiver_fra.Prelude.{
  ℕ, String, ◌≡◌, refl, sym, ap, subst, ◌∙◌, Bool, true, false, ◌&&◌, Option, none, some, arith,
  str_eq, eq_iff, if◌then◌else◌, if_cases,
}
use nmos_sender_receiver_fra.Expected.{
  Expected, Safe, is_ok, ok, unexpected, thrown, undefined, Safe-bind, Safe-map, Ensures-bind,
  Safe-value,
}
use nmos_sender_receiver_fra.Plugin.VideoReceiver.Steps.{
  Step, buffer, second, activated, changed, Reach, start, later, read_as, takes, enables, taken_by,
  last_taken,
}
use nmos_sender_receiver_fra.Libraries.{Libraries}
use nmos_sender_receiver_fra.Plugin.VideoReceiver.{
  Answers, Transition, null_to_ready, ready_to_paused, paused_to_playing, other_transition,
  VideoReceiver, init, remove_from, remove_old_bin, buffer_monitor_probe, set_playing, start_source,
  clear, force, set_settings, set_client, set_active, is_stalled, check_no_data_timeout, rebuild,
  take_settings, disable, enable, on_activation, create_nmos, change_state,
}
use nmos_sender_receiver_fra.Json.Api.{Converts}
use nmos_sender_receiver_fra.Sdp.Settings.{SdpSettings}
use nmos_sender_receiver_fra.Sdp.Reader.{SdpLibrary, parse_sdp}
use nmos_sender_receiver_fra.Sdp.Reader.Outcome.{IsPlayable, parse_sdp-Safe}
use nmos_sender_receiver_fra.Node.Action.{either_branch}
use nmos_sender_receiver_fra.Plugin.Params.{first_param, rtp_enabled}
use nmos_sender_receiver_fra.Plugin.VideoReceiver.Steps.Source.{
  HasTaken, HasTaken-as, IsSourced, Receives-as, remove_from-pad, remove_from-IsSourced,
  remove_from-HasTaken, construct_pipeline-Safe,
}

module _ (L : Libraries) where
  -- Data came before an element is stalled.
  pub stalled-seen :
      (now : ℕ) (r : VideoReceiver L) → is_stalled L now r ≡ true → r.pipeline_clear ≡ false
  stalled-seen now r e = ground arith

module _ (L : Libraries) (S : SdpLibrary L) where
  open L use {json, Json}

  -- A change of members that nothing here depends on.
  same_pipeline :
      (sdp : String) (r t : VideoReceiver L)
      → IsSourced L S sdp r
      → r.sdp_string ≡ t.sdp_string
      → r.sdp_settings ≡ t.sdp_settings
      → r.source_started ≡ t.source_started
      → r.pipeline_clear ≡ t.pipeline_clear
      → r.element_pad ≡ t.element_pad
      → r.source_address ≡ t.source_address
      → r.caps ≡ t.caps
      → IsSourced L S sdp t
  same_pipeline sdp r t h a b c d e f g = record {
    text = sym a ∙ h.text;
    started = λ k. HasTaken-as L S sdp r t (h.started (c ∙ k)) a b;
    seen = λ k. HasTaken-as L S sdp r t (h.seen (d ∙ k)) a b;
    named = λ k. HasTaken-as L S sdp r t (h.named k) a b;
    follows = λ k. Receives-as L S sdp r t (h.follows (λ n. k (sym e ∙ n))) f g c;
  }

  set_playing-IsSourced :
      (sdp : String) (r : VideoReceiver L)
      → IsSourced L S sdp r
      → IsSourced L S sdp (set_playing L r)
  set_playing-IsSourced sdp r h =
      same_pipeline sdp r (set_playing L r) h refl refl refl refl refl refl refl

  force-IsSourced :
      (sdp : String) (b : Bool) (r : VideoReceiver L)
      → IsSourced L S sdp r
      → IsSourced L S sdp (force L b r)
  force-IsSourced sdp b r h = same_pipeline sdp r (force L b r) h refl refl refl refl refl refl refl

  set_client-IsSourced :
      (sdp : String) (r : VideoReceiver L)
      → IsSourced L S sdp r
      → IsSourced L S sdp (set_client L r)
  set_client-IsSourced sdp r h =
      same_pipeline sdp r (set_client L r) h refl refl refl refl refl refl refl

  set_active-IsSourced :
      (sdp : String) (r : VideoReceiver L)
      → IsSourced L S sdp r
      → IsSourced L S sdp (set_active L r)
  set_active-IsSourced sdp r h =
      same_pipeline sdp r (set_active L r) h refl refl refl refl refl refl refl

  change_state-IsSourced :
      (sdp : String) (transition : Transition) (config created : Bool) (r : VideoReceiver L)
      → IsSourced L S sdp r
      → IsSourced L S sdp (change_state L transition config created r)
  unfolding change_state create_nmos
  change_state-IsSourced sdp null_to_ready config created r h =
      either_branch (IsSourced L S sdp) r.nmos_active h (
        set_active-IsSourced sdp _
          (either_branch (IsSourced L S sdp) (config && created) (set_client-IsSourced sdp r h) h))
  change_state-IsSourced sdp ready_to_paused config created r h = h
  change_state-IsSourced sdp paused_to_playing config created r h = h
  change_state-IsSourced sdp other_transition config created r h = h

  remove_old_bin-IsSourced :
      (sdp : String) (r : VideoReceiver L)
      → IsSourced L S sdp r
      → IsSourced L S sdp (remove_old_bin L r)
  unfolding remove_old_bin
  remove_old_bin-IsSourced sdp r h = remove_from-IsSourced L S sdp r.element_pad r h

  rebuild-Safe :
      (sdp : String) (answers : Answers) (r : VideoReceiver L)
      → HasTaken L S sdp r
      → Safe (IsSourced L S sdp) (rebuild L answers r)
  unfolding rebuild remove_old_bin
  rebuild-Safe sdp answers r a =
      Safe-bind _
        (construct_pipeline-Safe L S sdp answers (remove_from L r.element_pad r)
          (remove_from-HasTaken L S sdp r.element_pad r a)
          (remove_from-pad L S r.element_pad r refl))
        λ t h. is_ok (set_playing-IsSourced sdp t h)

  check-IsSourced :
      (sdp : String) (now : ℕ) (answers : Answers) (r : VideoReceiver L)
      → IsSourced L S sdp r
      → Safe (IsSourced L S sdp) (check_no_data_timeout L now answers r)
  unfolding check_no_data_timeout remove_old_bin
  check-IsSourced sdp now answers r h =
      if_cases (Safe (IsSourced L S sdp)) r.user_forced_stop (λ _. is_ok h)
        λ _.
          if_cases (Safe (IsSourced L S sdp)) (is_stalled L now r)
            (λ e.
              Safe-bind _
                (construct_pipeline-Safe L S sdp answers
                  (start_source L (remove_from L r.element_pad (clear L r)))
                  (HasTaken-as L S sdp (remove_from L r.element_pad (clear L r)) _
                    (remove_from-HasTaken L S sdp r.element_pad (clear L r) (
                      HasTaken-as L S sdp r (clear L r) (h.seen (stalled-seen L now r e)) refl
                        refl))
                    refl refl)
                  (remove_from-pad L S r.element_pad (clear L r) refl))
                λ t k. is_ok (set_playing-IsSourced sdp t k))
            (λ _. is_ok h)

  module _ (c : Converts json) (G : Answers → Type 0) where
    take_settings-Safe :
        (answers : Answers) (sdp last : String) (x : Expected (SdpSettings L)) (r : VideoReceiver L)
        → parse_sdp L S sdp ≡ x
        → Safe (IsPlayable L) x
        → IsSourced L S last r
        → Safe (IsSourced L S (read_as L S G x sdp last)) (take_settings L answers sdp x r)
    unfolding take_settings
    take_settings-Safe answers sdp last (ok s) r e (is_ok p) h =
        if_cases (Safe (IsSourced L S sdp)) (str_eq sdp r.sdp_string)
          (λ k.
            is_ok (subst (λ x. IsSourced L S x r) (sym ((eq_iff sdp r.sdp_string).0 k ∙ h.text)) h))
          (λ _.
            rebuild-Safe sdp answers (set_settings L s sdp r)
              (record { text = refl; parsed = e; addressed = p.0 }))
    take_settings-Safe answers sdp last (unexpected e) r q p h = is_ok h
    take_settings-Safe answers sdp last thrown r q p h = elim p [ ]
    take_settings-Safe answers sdp last undefined r q p h = elim p [ ]

    enable-Safe :
        (answers : Answers) (sdp : Option String) (last : String) (r : VideoReceiver L)
        → IsSourced L S last r
        → Safe (IsSourced L S (takes L S G true sdp last)) (enable L S answers sdp r)
    unfolding enable takes
    enable-Safe answers (some sdp) last r h =
        take_settings-Safe answers sdp last (parse_sdp L S sdp) (force L false r) refl
          (parse_sdp-Safe L c S sdp) (force-IsSourced last false r h)
    enable-Safe answers none last r h =
        if_cases (Safe (IsSourced L S last)) (str_eq r.sdp_string "")
          (λ _. is_ok (force-IsSourced last false r h))
          (λ e. rebuild-Safe last answers (force L false r) (
            HasTaken-as L S last r (force L false r)
              (h.named (sym (ap (λ x. str_eq x "") h.text) ∙ e)) refl refl))

    disable-IsSourced :
        (sdp : Option String) (last : String) (r : VideoReceiver L)
        → IsSourced L S last r
        → IsSourced L S last (disable L sdp r)
    unfolding disable
    disable-IsSourced none last r h = force-IsSourced last true r h
    disable-IsSourced (some sdp) last r h =
        remove_old_bin-IsSourced last (force L true r) (force-IsSourced last true r h)

    on_activation-Safe :
        (answers : Answers) (sdp : Option String) (m : Bool) (params : Json) (last : String)
        (r : VideoReceiver L) (b : Bool)
        → rtp_enabled json (first_param json params) ≡ ok b
        → IsSourced L S last r
        → Safe
            (IsSourced L S
              (takes L S G (enables L S G m (rtp_enabled json (first_param json params))) sdp last))
            (on_activation L S answers sdp m params r)
    unfolding on_activation takes
    on_activation-Safe answers sdp m params last r b e h = rw e (branch (m && b))
      where
        branch :
            (x : Bool)
            → Safe
                (IsSourced L S (takes L S G x sdp last))
                (if x then enable L S answers sdp r else ok (disable L sdp r))
        branch true = enable-Safe answers sdp last r h
        branch false = is_ok (disable-IsSourced sdp last r h)

    enabled_value :
        (answers : Answers) (sdp : Option String) (m : Bool) (params : Json) (r t : VideoReceiver L)
        → on_activation L S answers sdp m params r ≡ ok t
        → (b : Bool) × (rtp_enabled json (first_param json params) ≡ ok b)
    unfolding on_activation takes
    enabled_value answers sdp m params r t =
        Ensures-bind {Q = λ _. (b : Bool) × (rtp_enabled json (first_param json params) ≡ ok b)}
          (rtp_enabled json (first_param json params)) _ (λ b e _ _. (b, e)) t

    Step-IsSourced :
        {r t : VideoReceiver L} (q : Step L S G r t) (last : String)
        → IsSourced L S last r
        → IsSourced L S (taken_by L S G q last) t
    unfolding buffer_monitor_probe taken_by
    Step-IsSourced {r} (buffer now e) last h = record {
      text = h.text;
      started = λ k. HasTaken-as L S last r _ (h.started k) refl refl;
      seen = λ _. HasTaken-as L S last r _ (h.started e) refl refl;
      named = λ k. HasTaken-as L S last r _ (h.named k) refl refl;
      follows = λ k. Receives-as L S last r _ (h.follows k) refl refl refl;
    }
    Step-IsSourced {r} (second now answers g e) last h =
        Safe-value _ (check-IsSourced last now answers r h) e
    Step-IsSourced {r} {t} (activated answers sdp m params g k e) last h =
        let (b, f) = enabled_value answers sdp m params r t e in
        Safe-value _ (on_activation-Safe answers sdp m params last r b f h) e
    Step-IsSourced {r} (changed transition config created) last h =
        change_state-IsSourced last transition config created r h

    -- In every state that is reached, the element holds the SDP file that the activations up to it gave
    -- last and that could be read; and an element with a pipeline receives from the address and the
    -- port, and the video, that this file says.
    pub Reach-IsSourced :
        {memory : SdpSettings L} {now : ℕ} {r : VideoReceiver L} (reach : Reach L S G memory now r)
        → IsSourced L S (last_taken L S G reach) r
    unfolding init last_taken
    Reach-IsSourced start = record {
      text = refl;
      started = λ e. cc;
      seen = λ e. cc;
      named = λ e. cc;
      follows = λ k. absurd (k refl);
    }
    Reach-IsSourced (later p q) = Step-IsSourced q (last_taken L S G p) (Reach-IsSourced p)

    -- In every state that is reached, whatever GStreamer answers, no exception leaves the check for
    -- data and, where rtp_enabled can be read, the activation callback.
    pub events-Safe :
        {memory : SdpSettings L} {first : ℕ} {r : VideoReceiver L} (now : ℕ) (answers : Answers)
        (sdp : Option String) (m : Bool) (params : Json) (b : Bool)
        → Reach L S G memory first r
        → rtp_enabled json (first_param json params) ≡ ok b
        → Safe (λ _. Unit {0}) (check_no_data_timeout L now answers r)
          × Safe (λ _. Unit {0}) (on_activation L S answers sdp m params r)
    events-Safe {r = r} now answers sdp m params b p e =
        let last = last_taken L S G p in
        let h = Reach-IsSourced p in
        (
          Safe-map (λ _ _. tt) (check-IsSourced last now answers r h),
          Safe-map (λ _ _. tt) (on_activation-Safe answers sdp m params last r b e h),
        )
