-- ===== src/Plugin/AudioReceiver/Stopped.antt =====
-- An element that was disabled while it received audio.
use nmos_sender_receiver_fra.Prelude.{
  ℕ, String, ◌≡◌, refl, ap, subst, ◌≢◌, Bool, false, ◌&&◌, Option, none, some, str_eq, eq_refl,
  if_cases,
}
use nmos_sender_receiver_fra.Expected.{
  Expected, ok, unexpected, thrown, undefined, Ensures-bind, ok-injective,
}
use nmos_sender_receiver_fra.Libraries.{Libraries}
use nmos_sender_receiver_fra.Sdp.Settings.{SdpSettings}
use nmos_sender_receiver_fra.Sdp.Reader.{SdpLibrary, parse_sdp}
use nmos_sender_receiver_fra.Plugin.Params.{first_param, rtp_enabled}
use nmos_sender_receiver_fra.Plugin.AudioReceiver.{
  Answers, AudioReceiver, remove_from, take_down, remove_old_bin, take_settings, disable, enable,
  on_activation,
}

module _ (L : Libraries) where
  open L use {json, Json}

  -- No pipeline, and the SDP file that was taken last.
  pub record IsStopped (sdp : String) (r : AudioReceiver L) : Type 0 where
    pub bin : r.bin ≡ none
    pub elements : r.elements ≡ none
    pub taken : r.sdp_string ≡ sdp

  -- A pipeline from that SDP file.
  pub record IsRunning (sdp : String) (r : AudioReceiver L) : Type 0 where
    pub pad : r.element_pad ≢ none
    pub taken : r.sdp_string ≡ sdp

  running-IsStopped :
      (o : Option ℕ) (sdp : String) (r : AudioReceiver L)
      → r.element_pad ≡ o
      → IsRunning sdp r
      → IsStopped sdp (remove_from L o r)
  unfolding remove_from take_down
  running-IsStopped none sdp r e h = absurd (h.pad e)
  running-IsStopped (some pad) sdp r e h = record { bin = refl; elements = refl; taken = h.taken }

  remove_from-IsStopped :
      (o : Option ℕ) (sdp : String) (r : AudioReceiver L)
      → IsStopped sdp r
      → IsStopped sdp (remove_from L o r)
  unfolding remove_from take_down
  remove_from-IsStopped none sdp r h = h
  remove_from-IsStopped (some pad) sdp r h = record { bin = refl; elements = refl; taken = h.taken }

  take_settings-IsStopped :
      (answers : Answers) (sdp : String) (x : Expected (SdpSettings L)) (r t : AudioReceiver L)
      → IsStopped sdp r
      → take_settings L answers sdp x r ≡ ok t
      → IsStopped sdp t
  unfolding take_settings
  take_settings-IsStopped answers sdp (ok s) r t h =
      if_cases (λ m. m ≡ ok t → IsStopped sdp t) (str_eq sdp r.sdp_string)
        (λ _ e. subst (IsStopped sdp) (ok-injective e) h)
        (λ n. let same = eq_refl sdp in let k = ap (str_eq sdp) h.taken in cc)
  take_settings-IsStopped answers sdp (unexpected x) r t h =
      λ e. subst (IsStopped sdp) (ok-injective e) h
  take_settings-IsStopped answers sdp thrown r t h = λ e. cc
  take_settings-IsStopped answers sdp undefined r t h = λ e. cc

  module _ (S : SdpLibrary L) where
    activated-IsStopped :
        (answers : Answers) (sdp : String) (m : Bool) (params : Json) (r t : AudioReceiver L)
        → IsStopped sdp r
        → on_activation L S answers (some sdp) m params r ≡ ok t
        → IsStopped sdp t
    unfolding on_activation enable disable remove_old_bin
    activated-IsStopped answers sdp m params r t h =
        Ensures-bind {Q = IsStopped sdp} (rtp_enabled json (first_param json params)) _
          (λ b _ t.
            if_cases (λ x. x ≡ ok t → IsStopped sdp t) (m && b)
              (λ _. take_settings-IsStopped answers sdp (parse_sdp L S sdp) r t h)
              (λ _ e.
                subst (IsStopped sdp) (ok-injective e)
                  (remove_from-IsStopped r.element_pad sdp r h)))
          t

    disabled-IsStopped :
        (answers : Answers) (sdp : String) (params : Json) (r t : AudioReceiver L)
        → IsRunning sdp r
        → on_activation L S answers (some sdp) false params r ≡ ok t
        → IsStopped sdp t
    unfolding on_activation disable remove_old_bin
    disabled-IsStopped answers sdp params r t h =
        Ensures-bind {Q = IsStopped sdp} (rtp_enabled json (first_param json params)) _
          (λ b _ t e.
            subst (IsStopped sdp) (ok-injective e) (running-IsStopped r.element_pad sdp r refl h))
          t

    -- Activations with the same SDP file, enabled or not.
    pub data SameSdp (sdp : String) (r : AudioReceiver L) : AudioReceiver L → Type 0 where
      at_first : SameSdp sdp r r
      activated :
          (answers : Answers) (m : Bool) (params : Json) {s t : AudioReceiver L}
          → SameSdp sdp r s
          → on_activation L S answers (some sdp) m params s ≡ ok t
          → SameSdp sdp r t

    same-IsStopped :
        (sdp : String) (r t : AudioReceiver L) → SameSdp sdp r t → IsStopped sdp r → IsStopped sdp t
    same-IsStopped sdp r t at_first h = h
    same-IsStopped sdp r t (activated answers m params {s} p e) h =
        activated-IsStopped answers sdp m params s t (same-IsStopped sdp r s p h) e

    -- An element that receives audio is disabled with the SDP file that it plays; from then on no
    -- activation with that SDP file, enabled or not, gives it a pipeline again.
    pub disabled_for_good :
        (answers : Answers) (sdp : String) (params : Json) (r s t : AudioReceiver L)
        → IsRunning sdp r
        → on_activation L S answers (some sdp) false params r ≡ ok s
        → SameSdp sdp s t
        → IsStopped sdp t
    disabled_for_good answers sdp params r s t h e p =
        same-IsStopped sdp s t p (disabled-IsStopped answers sdp params r s h e)
