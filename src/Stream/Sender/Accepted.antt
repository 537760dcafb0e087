-- ===== src/Stream/Sender/Accepted.antt =====
-- What the configuration of a sender's stream gives.
use nmos_sender_receiver_fra.Prelude.{
  ℕ, String, ◌≡◌, refl, inl, inr, true, Option, none, some, subst, str_eq, Bool-cases,
}
use nmos_sender_receiver_fra.Expected.{
  Error, Safe-equation, Expected, Safe, is_ok, is_error, ok, unexpected, undefined, thrown, Returns,
  returns, ◌>>=◌, Safe-bind,
}
use nmos_sender_receiver_fra.Json.Api.{JsonApi, Converts}
use nmos_sender_receiver_fra.Json.Access.{
  read_text, read_int, read_word, read_float, read_json, find,
}
use nmos_sender_receiver_fra.Json.Access.Laws.{
  IsSound-read_text, IsSound-read_int, IsSound-read_word, IsSound-read_float, IsSound-read_json,
  find-Safe, Left, assign_if-Left,
}
use nmos_sender_receiver_fra.Node.Action.{either_branch}
use nmos_sender_receiver_fra.Stream.Sender.{
  NetworkSettings, SenderSettings, copied, StreamFormat, AudioInfo, VideoInfo, video_info,
  audio_info, to_frame_structure, frame_rate_from_json, video_info_from_json,
  audio_l24_info_from_json, stream_network_from_json, stream_format, translate_sender,
}

-- The format that a media type allows.
pub data Fits (J : JsonApi) (t : String) : StreamFormat J → Type 0 where
  is_video : str_eq t "video/raw" ≡ true → (v : VideoInfo) → Fits J t (video_info v)
  is_l24 :
      str_eq t "audio/L24" ≡ true
      → (a : AudioInfo J) → a.bits_per_sample ≡ 24
      → Fits J t (audio_info a)

-- A call that returned, with any value.
abbrev Returned : {A : Type 0} → Expected A → Type 0
Returned = Safe (λ _. Unit)

to_frame_structure-Safe : (s : String) → Returned (to_frame_structure s)
unfolding to_frame_structure
to_frame_structure-Safe s = either_branch Returned (str_eq s "progressive") (is_ok tt) (
    either_branch Returned (str_eq s "interlaced_tff") (is_ok tt) (
      either_branch Returned (str_eq s "interlaced_bff") (is_ok tt)
        (either_branch Returned (str_eq s "interlaced_psf") (is_ok tt) is_error)))

module _ (J : JsonApi) (c : Converts J) where
  open J use {Json}

  text-Safe : (j : Json) (key : String) → Returned (find J (read_text J) j key)
  text-Safe = find-Safe J (read_text J) (IsSound-read_text J c)

  int-Safe : (j : Json) (key : String) → Returned (find J (read_int J) j key)
  int-Safe = find-Safe J (read_int J) (IsSound-read_int J c)

  word-Safe : (w : ℕ) (j : Json) (key : String) → Returned (find J (read_word J w) j key)
  word-Safe w = find-Safe J (read_word J w) (IsSound-read_word J c w)

  float-Safe : (j : Json) (key : String) → Returned (find J (read_float J) j key)
  float-Safe = find-Safe J (read_float J) (IsSound-read_float J c)

  json-Safe : (j : Json) (key : String) → Returned (find J (read_json J) j key)
  json-Safe = find-Safe J (read_json J) (IsSound-read_json J c)

  frame_rate-Safe : (j : Json) → Returned (frame_rate_from_json J j)
  unfolding frame_rate_from_json
  frame_rate-Safe j =
      Safe-bind _ (word-Safe 32 j "num") λ _ _. Safe-bind _ (word-Safe 32 j "den") λ _ _. is_ok tt

  video-Safe : (j : Json) → Returned (video_info_from_json J j)
  unfolding video_info_from_json
  video-Safe j = Safe-bind _ (json-Safe j "frame_rate") λ rate _.
      Safe-bind _ (frame_rate-Safe rate) λ _ _. Safe-bind _ (text-Safe j "sampling") λ _ _.
        Safe-bind _ (int-Safe j "width") λ _ _. Safe-bind _ (int-Safe j "height") λ _ _.
          Safe-bind _ (text-Safe j "structure")
            λ s _. Safe-bind _ (to_frame_structure-Safe s) λ _ _. is_ok tt

  audio-Safe : (j : Json) → Safe (λ a. a.bits_per_sample ≡ 24) (audio_l24_info_from_json J j)
  unfolding audio_l24_info_from_json
  audio-Safe j = Safe-bind _ (int-Safe j "number_of_channels") λ _ _.
      Safe-bind _ (int-Safe j "sampling_rate")
        λ _ _. Safe-bind _ (float-Safe j "packet_time") λ _ _. is_ok refl

  -- Settings of the network for a value `port` of the destination port that is read, or not.
  abbrev Ported : Expected ℕ → Expected NetworkSettings → Type 0
  Ported (ok n) r = Safe (λ net. net.destination_port ≡ n) r
  Ported (unexpected e) r = r ≡ undefined
  Ported thrown r = Unit
  Ported undefined r = Unit

  copied-Ported :
      (o : Option ℕ) (r : Expected ℕ) (net : ℕ → NetworkSettings)
      → ((n : ℕ) → (net n).destination_port ≡ n)
      → Left J (read_word J 16) some none r o
      → Ported r (do n ← copied J o; ok (net n))
  unfolding copied
  copied-Ported o (ok n) net k h = rw h (is_ok (k n))
  copied-Ported o (unexpected e) net k h = rw h refl
  copied-Ported o thrown net k h = tt
  copied-Ported o undefined net k h = tt

  after :
      {A B : Type 0} {P : A → Type 0} {m : Expected A} {f : A → Expected B}
      (Q : Expected B → Type 0)
      → Returns P m
      → ((a : A) → P a → Q (f a))
      → Q (m >>= f)
  after Q (returns h) k = k _ h

  network-Ported :
      (j primary : Json)
      → find J (read_json J) j "primary" ≡ ok primary
      → Ported (find J (read_word J 16) primary "destination_port") (stream_network_from_json J j)
  unfolding stream_network_from_json
  network-Ported j primary e =
      let Q = Ported (find J (read_word J 16) primary "destination_port") in
      let text = IsSound-read_text J c in
      rw e (
        after Q (assign_if-Left J (read_text J) text (λ s. s) primary "destination_address" "")
          λ _ _.
            after Q
              (assign_if-Left J (read_word J 16) (IsSound-read_word J c 16) some primary
                "destination_port" none)
              λ p h.
                after Q (assign_if-Left J (read_text J) text some primary "source_address" none)
                  λ _ _.
                    after Q
                      (assign_if-Left J (read_text J) text (λ s. s) primary "interface_name" "")
                      λ _ _. copied-Ported p.0 _ _ (λ n. refl) h)

  format-Safe : (t : String) (media : Json) → Safe (Fits J t) (stream_format J t media)
  unfolding stream_format
  format-Safe t media = elim (Bool-cases (str_eq t "video/raw")) [
    | inl v ↦ rw v (Safe-bind _ (video-Safe media) λ info _. is_ok (is_video v info))
    | inr v ↦ elim (Bool-cases (str_eq t "audio/L24")) [
      | inl a ↦ rw (v, a) (Safe-bind _ (audio-Safe media) λ info bits. is_ok (is_l24 a info bits))
      | inr a ↦ rw (v, a) is_error
    ]
  ]

  -- The settings of a configuration: the destination port is `port`, and the format fits the media
  -- type.
  pub record IsTranslated (config : Json) (port : ℕ) (s : SenderSettings J) : Type 0 where
    pub media_type : String
    pub at_key : find J (read_text J) config "media_type" ≡ ok media_type
    pub fits : Fits J media_type s.format
    pub destination_port : s.primary.destination_port ≡ port

  -- Where the JSON library converts what it accepts: a configuration of a sender's stream whose network
  -- has a primary leg with a destination port gives settings or an error, with no exception and nothing
  -- undefined; the settings have that port, and a format that fits the media type, 24 bits for audio.
  pub translate_sender-Safe :
      (config network primary : Json) (port : ℕ)
      → find J (read_json J) config "network" ≡ ok network
      → find J (read_json J) network "primary" ≡ ok primary
      → find J (read_word J 16) primary "destination_port" ≡ ok port
      → Safe (IsTranslated config port) (translate_sender J config)
  unfolding translate_sender
  translate_sender-Safe config network primary port n p d =
      let ported =
        subst (λ r. Ported r (stream_network_from_json J network)) d
          (network-Ported network primary p) in
      rw n (
        Safe-bind _ ported λ net k.
          Safe-bind _ (Safe-equation _ (text-Safe config "media_type")) λ t e.
            Safe-bind _ (json-Safe config "media") λ media _.
              Safe-bind _ (format-Safe t media) λ _ fits.
                is_ok (record { media_type = t; at_key = e; fits = fits; destination_port = k }))

  -- Where the JSON library converts what it accepts: if the primary leg has no destination port that
  -- can be read, a number with no value is copied, whatever the rest of the configuration is.
  pub translate_sender-undefined :
      (config network primary : Json) (e : Error)
      → find J (read_json J) config "network" ≡ ok network
      → find J (read_json J) network "primary" ≡ ok primary
      → find J (read_word J 16) primary "destination_port" ≡ unexpected e
      → translate_sender J config ≡ undefined
  unfolding translate_sender
  translate_sender-undefined config network primary e n p d =
      let ported =
        subst (λ r. Ported r (stream_network_from_json J network)) d
          (network-Ported network primary p) in
      let undef : stream_network_from_json J network ≡ undefined = ported in rw (n, undef) refl
