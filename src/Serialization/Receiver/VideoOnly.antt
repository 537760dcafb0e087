-- ===== src/Serialization/Receiver/VideoOnly.antt =====
-- What a configuration with one capability gives.
use nmos_sender_receiver_fra.Prelude.{
  String, ◌≡◌, refl, subst, ◌⊎◌, inl, inr, true, false, false≢true, some, List, [], ◌∷◌, str_eq,
  eq_iff, Bool-cases,
}
use nmos_sender_receiver_fra.Expected.{
  Expected, capability_not_supported, ok, unexpected, undefined,
}
use nmos_sender_receiver_fra.Libraries.{Libraries}
use nmos_sender_receiver_fra.Json.Access.{get_as, find}
use nmos_sender_receiver_fra.Configuration.{Format, video, MediaType, video_raw, audio_L}
use nmos_sender_receiver_fra.Serialization.Receiver.{
  subscript, with_second, media_types_for, format_specific,
}

-- With one capability there is no second one to look at.
with_second-one : (t : String) (a b : MediaType) → with_second (t ∷ []) a b ≡ undefined
unfolding with_second subscript
with_second-one t a b = refl

-- What one capability gives: video, undefined behaviour or an error.
data OneCapability (t : String) : Expected (List MediaType × Format) → Type 0 where
  is_video : str_eq t "video/raw" ≡ true → OneCapability t (ok (video_raw ∷ [], video))
  is_audio :
      (str_eq t "audio/L24" ≡ true) ⊎ (str_eq t "audio/L16" ≡ true) → OneCapability t undefined
  is_neither :
      str_eq t "audio/L24" ≡ false
      → str_eq t "audio/L16" ≡ false
      → OneCapability t (unexpected (capability_not_supported t))

media_types_for-one : (t : String) → OneCapability t (media_types_for (t ∷ []) t)
unfolding media_types_for
media_types_for-one t = elim (Bool-cases (str_eq t "video/raw")) [
  | inl v ↦ rw v (is_video v)
  | inr v ↦ elim (Bool-cases (str_eq t "audio/L24")) [
    | inl a ↦ rw (v, a, with_second-one t (audio_L 24) (audio_L 16)) (is_audio (inl a))
    | inr a ↦ elim (Bool-cases (str_eq t "audio/L16")) [
      | inl b ↦ rw (v, a, b, with_second-one t (audio_L 16) (audio_L 24)) (is_audio (inr b))
      | inr b ↦ rw (v, a, b) (is_neither a b)
    ]
  ]
]

video_is_not_audio :
    (t : String)
    → str_eq t "video/raw" ≡ true
    → ¬ ((str_eq t "audio/L24" ≡ true) ⊎ (str_eq t "audio/L16" ≡ true))
video_is_not_audio t v (inl a) =
    false≢true (subst (λ x. str_eq x "audio/L24" ≡ true) ((eq_iff t "video/raw").0 v) a)
video_is_not_audio t v (inr a) =
    false≢true (subst (λ x. str_eq x "audio/L16" ≡ true) ((eq_iff t "video/raw").0 v) a)

OneCapability-audio :
    {t : String} {r : Expected (List MediaType × Format)}
    → OneCapability t r
    → (str_eq t "audio/L24" ≡ true) ⊎ (str_eq t "audio/L16" ≡ true)
    → r ≡ undefined
OneCapability-audio {t} (is_video v) a = absurd (video_is_not_audio t v a)
OneCapability-audio (is_audio _) a = refl
OneCapability-audio (is_neither b c) (inl a) = cc
OneCapability-audio (is_neither b c) (inr a) = cc

module _ (L : Libraries) where
  open L use {json, Json, find_member, is_array, get_string, elements}

  -- The capabilities are the array of the one text `t`.
  pub record HasOneCapability (config : Json) (t : String) : Type 0 where
    pub array : Json
    pub entry : Json
    pub at_key : find_member config "capabilities" ≡ some array
    pub array_lem : is_array array ≡ true
    pub one : elements array ≡ entry ∷ []
    pub text : get_string entry ≡ some t

  format_specific-one :
      (config : Json) (t : String)
      → HasOneCapability config t
      → format_specific L config ≡ media_types_for (t ∷ []) t
  unfolding format_specific find get_as subscript
  format_specific-one config t h = rw (h.at_key, find, h.array_lem, h.one, h.text)

  -- One audio capability, "audio/L24" or "audio/L16", leads to undefined behaviour: `c[1]` is read,
  -- and `c` has one element.
  pub format_specific-audio :
      (config : Json) (t : String)
      → HasOneCapability config t
      → (str_eq t "audio/L24" ≡ true) ⊎ (str_eq t "audio/L16" ≡ true)
      → format_specific L config ≡ undefined
  format_specific-audio config t h a =
      rw (format_specific-one config t h) (OneCapability-audio (media_types_for-one t) a)
