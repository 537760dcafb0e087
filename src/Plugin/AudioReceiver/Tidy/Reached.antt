-- ===== src/Plugin/AudioReceiver/Tidy/Reached.antt =====
-- The bins of an element that receives audio, in every state that is reached.
use nmos_sender_receiver_fra.Prelude.{
  ℕ, String, ◌≡◌, refl, subst, Bool, true, false, ◌&&◌, Option, none, some, str_eq, if◌then◌else◌,
  if_cases,
}
use nmos_sender_receiver_fra.Expected.{
  Expected, ok, unexpected, thrown, undefined, Ensures-bind, ok-injective,
}
use nmos_sender_receiver_fra.Libraries.{Libraries}
use nmos_sender_receiver_fra.Sdp.Settings.{SdpSettings}
use nmos_sender_receiver_fra.Sdp.Reader.{SdpLibrary, parse_sdp}
use nmos_sender_receiver_fra.Node.Action.{either_branch}
use nmos_sender_receiver_fra.Plugin.Params.{first_param, rtp_enabled}
use nmos_sender_receiver_fra.Plugin.AudioReceiver.{
  Answers, AudioReceiver, init, remove_old_bin, construct_pipeline, set_playing, set_settings,
  rebuild, take_settings, disable, enable, on_activation, create_nmos, null_to_ready,
}
use nmos_sender_receiver_fra.Plugin.AudioReceiver.Tidy.{
  IsTidy, no_bins, construct_pipeline-IsTidy, IsTidy-as,
}

module _ (L : Libraries) where
  open L use {json, Json}

  rebuild-IsTidy :
      (answers : Answers) (p : ℕ) (r t : AudioReceiver L)
      → answers.plugin_pad ≡ some p
      → IsTidy L r
      → rebuild L answers r ≡ ok t
      → IsTidy L t
  unfolding rebuild
  rebuild-IsTidy answers p r t k h =
      Ensures-bind (construct_pipeline L answers (remove_old_bin L r)) _
        (λ built e t q. subst (IsTidy L) (ok-injective q) (
          IsTidy-as L built (set_playing L built)
            (construct_pipeline-IsTidy L answers p (remove_old_bin L r) built k h.cleared e) refl
            refl refl))
        t

  take_settings-IsTidy :
      (answers : Answers) (p : ℕ) (sdp : String) (x : Expected (SdpSettings L))
      (r t : AudioReceiver L)
      → answers.plugin_pad ≡ some p
      → IsTidy L r
      → take_settings L answers sdp x r ≡ ok t
      → IsTidy L t
  unfolding take_settings
  take_settings-IsTidy answers p sdp (ok s) r t k h =
      if_cases (λ m. m ≡ ok t → IsTidy L t) (str_eq sdp r.sdp_string)
        (λ _ e. subst (IsTidy L) (ok-injective e) h)
        (λ _ e.
          rebuild-IsTidy answers p (set_settings L s sdp r) t k
            (IsTidy-as L r (set_settings L s sdp r) h refl refl refl) e)
  take_settings-IsTidy answers p sdp (unexpected x) r t k h =
      λ e. subst (IsTidy L) (ok-injective e) h
  take_settings-IsTidy answers p sdp thrown r t k h = λ e. cc
  take_settings-IsTidy answers p sdp undefined r t k h = λ e. cc

  disable-IsTidy :
      (sdp : Option String) (r : AudioReceiver L) → IsTidy L r → IsTidy L (disable L sdp r)
  unfolding disable
  disable-IsTidy none r h = h
  disable-IsTidy (some sdp) r h = no_bins L (remove_old_bin L r) h.cleared

  null_to_ready-IsTidy :
      (config created : Bool) (r : AudioReceiver L)
      → IsTidy L r
      → IsTidy L (null_to_ready L config created r)
  unfolding null_to_ready create_nmos
  null_to_ready-IsTidy config created r h =
      either_branch (IsTidy L) r.nmos_active h (activated (config && created))
    where
      activated :
          (b : Bool)
          → IsTidy L (record (if b then record r { client = true } else r) { nmos_active = true })
      activated true =
          IsTidy-as L r (record r { client = true; nmos_active = true }) h refl refl refl
      activated false = IsTidy-as L r (record r { nmos_active = true }) h refl refl refl

  module _ (S : SdpLibrary L) where
    enable-IsTidy :
        (answers : Answers) (p : ℕ) (sdp : Option String) (r t : AudioReceiver L)
        → answers.plugin_pad ≡ some p
        → IsTidy L r
        → enable L S answers sdp r ≡ ok t
        → IsTidy L t
    unfolding enable
    enable-IsTidy answers p (some sdp) r t k h =
        take_settings-IsTidy answers p sdp (parse_sdp L S sdp) r t k h
    enable-IsTidy answers p none r t k h =
        if_cases (λ m. m ≡ ok t → IsTidy L t) (str_eq r.sdp_string "")
          (λ _ e. subst (IsTidy L) (ok-injective e) h) (λ _ e. rebuild-IsTidy answers p r t k h e)

    activated-IsTidy :
        (answers : Answers) (p : ℕ) (sdp : Option String) (m : Bool) (params : Json)
        (r t : AudioReceiver L)
        → answers.plugin_pad ≡ some p
        → IsTidy L r
        → on_activation L S answers sdp m params r ≡ ok t
        → IsTidy L t
    unfolding on_activation
    activated-IsTidy answers p sdp m params r t k h =
        Ensures-bind (rtp_enabled json (first_param json params)) _
          (λ b _ t.
            if_cases (λ x. x ≡ ok t → IsTidy L t) (m && b)
              (λ _. enable-IsTidy answers p sdp r t k h)
              (λ _ e. subst (IsTidy L) (ok-injective e) (disable-IsTidy sdp r h)))
          t

    -- The states from an element that was made in memory that held `memory`, by activations and changes
    -- of state, whatever GStreamer answers but for the element's own pad, which is there.
    pub data Reach (memory : SdpSettings L) : AudioReceiver L → Type 0 where
      start : Reach memory (init L memory)
      readied :
          (config created : Bool) {r : AudioReceiver L}
          → Reach memory r
          → Reach memory (null_to_ready L config created r)
      activated :
          (answers : Answers) (p : ℕ) (sdp : Option String) (m : Bool) (params : Json)
          {r t : AudioReceiver L}
          → Reach memory r
          → answers.plugin_pad ≡ some p
          → on_activation L S answers sdp m params r ≡ ok t
          → Reach memory t

    pub Reach-IsTidy : (memory : SdpSettings L) (r : AudioReceiver L) → Reach memory r → IsTidy L r
    unfolding init
    Reach-IsTidy memory r start = no_bins L (init L memory) refl
    Reach-IsTidy memory r (readied config created {r = s} q) =
        null_to_ready-IsTidy config created s (Reach-IsTidy memory s q)
    Reach-IsTidy memory r (activated answers p sdp m params {r = s} q k e) =
        activated-IsTidy answers p sdp m params s r k (Reach-IsTidy memory s q) e
