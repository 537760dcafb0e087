-- ===== src/Plugin/VideoReceiver/Steps/Down.antt =====
-- An element whose pipeline was taken down before any data came.
use nmos_sender_receiver_fra.Prelude.{
  ℕ, String, ◌≡◌, refl, ap, subst, Bool, true, false, ◌&&◌, Option, none, some, str_eq, eq_refl,
  if_cases,
}
use nmos_sender_receiver_fra.Expected.{
  Expected, Returns, returns, ok, unexpected, thrown, undefined, Ensures-bind, ok-injective,
  Returns-value,
}
use nmos_sender_receiver_fra.Plugin.VideoReceiver.Steps.Events.{stalled-seen}
use nmos_sender_receiver_fra.Plugin.VideoReceiver.{
  Answers, VideoReceiver, take_down, remove_from, remove_old_bin, force, is_stalled,
  check_no_data_timeout, take_settings, disable, enable, on_activation,
}
use nmos_sender_receiver_fra.Libraries.{Libraries}
use nmos_sender_receiver_fra.Sdp.Settings.{SdpSettings}
use nmos_sender_receiver_fra.Sdp.Reader.{SdpLibrary, parse_sdp}
use nmos_sender_receiver_fra.Plugin.Params.{first_param, rtp_enabled}

module _ (L : Libraries) where
  open L use {json, Json}

  -- No pipeline, no data since the last one, and the SDP file that was taken last.
  pub record IsDown (sdp : String) (r : VideoReceiver L) : Type 0 where
    pub pad : r.element_pad ≡ none
    pub clear : r.pipeline_clear ≡ true
    pub taken : r.sdp_string ≡ sdp

  force-IsDown :
      (b : Bool) (sdp : String) (r : VideoReceiver L) → IsDown sdp r → IsDown sdp (force L b r)
  force-IsDown b sdp r h = record { pad = h.pad; clear = h.clear; taken = h.taken }

  remove_from-IsDown :
      (o : Option ℕ) (sdp : String) (r : VideoReceiver L)
      → IsDown sdp r
      → IsDown sdp (remove_from L o r)
  unfolding remove_from take_down
  remove_from-IsDown none sdp r h = h
  remove_from-IsDown (some pad) sdp r h = record { pad = refl; clear = h.clear; taken = h.taken }

  check-IsDown :
      (now : ℕ) (answers : Answers) (sdp : String) (r : VideoReceiver L)
      → IsDown sdp r
      → Returns (IsDown sdp) (check_no_data_timeout L now answers r)
  unfolding check_no_data_timeout
  check-IsDown now answers sdp r h =
      if_cases (Returns (IsDown sdp)) r.user_forced_stop (λ _. returns h)
        λ _.
          if_cases (Returns (IsDown sdp)) (is_stalled L now r)
            (λ e. let k = stalled-seen L now r e in let c = h.clear in cc) (λ _. returns h)

  take_settings-IsDown :
      (answers : Answers) (sdp : String) (x : Expected (SdpSettings L)) (r t : VideoReceiver L)
      → IsDown sdp r
      → take_settings L answers sdp x r ≡ ok t
      → IsDown sdp t
  unfolding take_settings
  take_settings-IsDown answers sdp (ok s) r t h =
      if_cases (λ m. m ≡ ok t → IsDown sdp t) (str_eq sdp r.sdp_string)
        (λ _ e. subst (IsDown sdp) (ok-injective e) h)
        (λ n. let same = eq_refl sdp in let k = ap (str_eq sdp) h.taken in cc)
  take_settings-IsDown answers sdp (unexpected x) r t h = λ e. subst (IsDown sdp) (ok-injective e) h
  take_settings-IsDown answers sdp thrown r t h = λ e. cc
  take_settings-IsDown answers sdp undefined r t h = λ e. cc

  module _ (S : SdpLibrary L) where
    enabled-IsDown :
        (answers : Answers) (sdp : String) (r t : VideoReceiver L)
        → IsDown sdp r
        → enable L S answers (some sdp) r ≡ ok t
        → IsDown sdp t
    unfolding enable
    enabled-IsDown answers sdp r t h =
        take_settings-IsDown answers sdp (parse_sdp L S sdp) (force L false r) t
          (force-IsDown false sdp r h)

    disabled-IsDown :
        (sdp : String) (r : VideoReceiver L) → IsDown sdp r → IsDown sdp (disable L (some sdp) r)
    unfolding disable remove_old_bin
    disabled-IsDown sdp r h =
        remove_from-IsDown r.element_pad sdp (force L true r) (force-IsDown true sdp r h)

    activated-IsDown :
        (answers : Answers) (sdp : String) (m : Bool) (params : Json) (r t : VideoReceiver L)
        → IsDown sdp r
        → on_activation L S answers (some sdp) m params r ≡ ok t
        → IsDown sdp t
    unfolding on_activation
    activated-IsDown answers sdp m params r t h =
        Ensures-bind {Q = IsDown sdp} (rtp_enabled json (first_param json params)) _
          (λ b _ t.
            if_cases (λ x. x ≡ ok t → IsDown sdp t) (m && b) (λ _. enabled-IsDown answers sdp r t h)
              (λ _ e. subst (IsDown sdp) (ok-injective e) (disabled-IsDown sdp r h)))
          t

    -- The events of an element of which the same SDP file is activated and deactivated.
    pub data SameSdp (sdp : String) (r : VideoReceiver L) : VideoReceiver L → Type 0 where
      at_first : SameSdp sdp r r
      second :
          (now : ℕ) (answers : Answers) {s t : VideoReceiver L}
          → SameSdp sdp r s
          → check_no_data_timeout L now answers s ≡ ok t
          → SameSdp sdp r t
      activated :
          (answers : Answers) (m : Bool) (params : Json) {s t : VideoReceiver L}
          → SameSdp sdp r s
          → on_activation L S answers (some sdp) m params s ≡ ok t
          → SameSdp sdp r t

    -- Once the pipeline was taken down before any data came, neither a check for data nor an activation
    -- with the SDP file that was taken last, enabled or not, builds a pipeline again.
    pub SameSdp-IsDown :
        (sdp : String) (r t : VideoReceiver L) → SameSdp sdp r t → IsDown sdp r → IsDown sdp t
    SameSdp-IsDown sdp r t at_first h = h
    SameSdp-IsDown sdp r t (second now answers {s} p e) h =
        Returns-value (check-IsDown now answers sdp s (SameSdp-IsDown sdp r s p h)) e
    SameSdp-IsDown sdp r t (activated answers m params {s} p e) h =
        activated-IsDown answers sdp m params s t (SameSdp-IsDown sdp r s p h) e
