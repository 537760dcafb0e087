-- ===== src/Plugin/VideoReceiver/Steps/Source.antt =====
-- The source of the pipeline, in every state that is reached.
use nmos_sender_receiver_fra.Prelude.{
  ℕ, String, ◌≡◌, refl, sym, ap, subst, ◌∙◌, ◌≢◌, true, false, Option, none, some, str_eq,
}
use nmos_sender_receiver_fra.Expected.{Safe, is_ok, ok, Safe-bind}
use nmos_sender_receiver_fra.Prelude.Int.{ℤ}
use nmos_sender_receiver_fra.Libraries.{Libraries}
use nmos_sender_receiver_fra.Plugin.VideoReceiver.{
  Answers, VideoReceiver, take_down, remove_from, set_target, set_bin_pad, show, expose, link,
  assemble, build, construct_for, construct_pipeline,
}
use nmos_sender_receiver_fra.Json.Access.{or_thrown}
use nmos_sender_receiver_fra.Configuration.{SenderMedia, VideoSenderInfo, video_info, audio_info}
use nmos_sender_receiver_fra.Sdp.Settings.{SdpSettings}
use nmos_sender_receiver_fra.Sdp.Reader.{SdpLibrary, parse_sdp}
use nmos_sender_receiver_fra.Sdp.Reader.Outcome.{IsAddressed}
use nmos_sender_receiver_fra.Node.Action.{either_branch}

-- A value that is there is taken with no exception.
or_thrown-Safe :
    {A : Type 0} {a : A} (o : Option A) → o ≡ some a → Safe (λ x. o ≡ some x) (or_thrown o)
or_thrown-Safe none h = cc
or_thrown-Safe (some x) h = is_ok refl

module _ (L : Libraries) (S : SdpLibrary L) where
  open L use {json, Json}

  -- The element took the SDP file `sdp` last: its settings are what the file says, and they have an
  -- address.
  pub record HasTaken (sdp : String) (r : VideoReceiver L) : Type 0 where
    pub text : r.sdp_string ≡ sdp
    pub parsed : parse_sdp L S sdp ≡ ok r.sdp_settings
    pub addressed : IsAddressed r.sdp_settings.primary

  -- The source was started, with the address, the port and the video of the SDP file `sdp`.
  pub record Receives (sdp : String) (r : VideoReceiver L) : Type 0 where
    pub settings : SdpSettings L
    pub ip : String
    pub port : ℤ
    pub video : VideoSenderInfo L
    pub parsed : parse_sdp L S sdp ≡ ok settings
    pub destination_ip : settings.primary.destination_ip ≡ some ip
    pub destination_port : settings.primary.destination_port ≡ some port
    pub format : settings.format ≡ video_info video
    pub address : r.source_address ≡ some (ip, port)
    pub caps : r.caps ≡ some video
    pub started : r.source_started ≡ true

  -- `sdp` is the SDP file that was taken last, empty if none was: once a source was started or a buffer
  -- came there is one, and an element with a pipeline receives what it describes.
  pub record IsSourced (sdp : String) (r : VideoReceiver L) : Type 0 where
    pub text : r.sdp_string ≡ sdp
    pub started : r.source_started ≡ true → HasTaken sdp r
    pub seen : r.pipeline_clear ≡ false → HasTaken sdp r
    pub named : str_eq sdp "" ≡ false → HasTaken sdp r
    pub follows : r.element_pad ≢ none → Receives sdp r

  pub IsSourced-if :
      (sdp : String) (r : VideoReceiver L)
      → HasTaken sdp r
      → (r.element_pad ≢ none → Receives sdp r)
      → IsSourced sdp r
  IsSourced-if sdp r a f = record {
    text = a.text;
    started = λ _. a;
    seen = λ _. a;
    named = λ _. a;
    follows = f;
  }

  -- The same SDP file after a change of other members.
  pub HasTaken-as :
      (sdp : String) (r t : VideoReceiver L)
      → HasTaken sdp r
      → r.sdp_string ≡ t.sdp_string
      → r.sdp_settings ≡ t.sdp_settings
      → HasTaken sdp t
  HasTaken-as sdp r t h a b = record {
    text = sym a ∙ h.text;
    parsed = h.parsed ∙ ap ok b;
    addressed = subst (λ x. IsAddressed (SdpSettings.primary x)) b h.addressed;
  }

  -- A change of other members.
  pub Receives-as :
      (sdp : String) (r t : VideoReceiver L)
      → Receives sdp r
      → r.source_address ≡ t.source_address
      → r.caps ≡ t.caps
      → r.source_started ≡ t.source_started
      → Receives sdp t
  Receives-as sdp r t f a c b = record {
    settings = f.settings;
    ip = f.ip;
    port = f.port;
    video = f.video;
    parsed = f.parsed;
    destination_ip = f.destination_ip;
    destination_port = f.destination_port;
    format = f.format;
    address = sym a ∙ f.address;
    caps = sym c ∙ f.caps;
    started = sym b ∙ f.started;
  }

  -- Taking the pipeline down.
  pub remove_from-pad :
      (o : Option ℕ) (r : VideoReceiver L)
      → r.element_pad ≡ o
      → (remove_from L o r).element_pad ≡ none
  unfolding remove_from take_down
  remove_from-pad none r h = h
  remove_from-pad (some pad) r h = refl

  pub remove_from-HasTaken :
      (sdp : String) (o : Option ℕ) (r : VideoReceiver L)
      → HasTaken sdp r
      → HasTaken sdp (remove_from L o r)
  unfolding remove_from take_down
  remove_from-HasTaken sdp none r h = h
  remove_from-HasTaken sdp (some pad) r h = HasTaken-as sdp r (take_down L r) h refl refl

  pub remove_from-IsSourced :
      (sdp : String) (o : Option ℕ) (r : VideoReceiver L)
      → IsSourced sdp r
      → IsSourced sdp (remove_from L o r)
  unfolding remove_from take_down
  remove_from-IsSourced sdp none r h = h
  remove_from-IsSourced sdp (some pad) r h = record {
    text = h.text;
    started = λ e. cc;
    seen = λ e. HasTaken-as sdp r (take_down L r) (h.seen e) refl refl;
    named = λ e. HasTaken-as sdp r (take_down L r) (h.named e) refl refl;
    follows = λ e. absurd (e refl);
  }

  -- Building it.
  show-IsSourced :
      (sdp : String) (answers : Answers) (ghost pad : Option ℕ) (r : VideoReceiver L)
      → HasTaken sdp r
      → Receives sdp r
      → IsSourced sdp (show L answers ghost pad r)
  unfolding show
  show-IsSourced sdp answers none pad r a f = IsSourced-if sdp r a (λ _. f)
  show-IsSourced sdp answers (some ghost) none r a f = IsSourced-if sdp r a (λ _. f)
  show-IsSourced sdp answers (some ghost) (some pad) r a f =
      either_branch (IsSourced sdp) answers.pad_added
        (IsSourced-if sdp (set_target L answers ghost pad r)
          (HasTaken-as sdp r (set_target L answers ghost pad r) a refl refl)
          (λ _. Receives-as sdp r (set_target L answers ghost pad r) f refl refl refl))
        (IsSourced-if sdp r a (λ _. f))

  expose-IsSourced :
      (sdp : String) (answers : Answers) (pad : Option ℕ) (r : VideoReceiver L)
      → HasTaken sdp r
      → Receives sdp r
      → IsSourced sdp (expose L answers pad r)
  unfolding expose
  expose-IsSourced sdp answers none r a f = IsSourced-if sdp r a (λ _. f)
  expose-IsSourced sdp answers (some pad) r a f =
      show-IsSourced sdp answers answers.ghost_pad answers.plugin_pad (set_bin_pad L answers r)
        (HasTaken-as sdp r (set_bin_pad L answers r) a refl refl)
        (Receives-as sdp r (set_bin_pad L answers r) f refl refl refl)

  link-IsSourced :
      (sdp : String) (answers : Answers) (r : VideoReceiver L)
      → HasTaken sdp r
      → Receives sdp r
      → IsSourced sdp (link L answers r)
  unfolding link
  link-IsSourced sdp answers r a f =
      either_branch (IsSourced sdp) answers.linked
        (expose-IsSourced sdp answers answers.src_pad r a f) (IsSourced-if sdp r a (λ _. f))

  assemble-IsSourced :
      (sdp : String) (answers : Answers) (video : VideoSenderInfo L) (ip : String) (port : ℤ)
      (b : ℕ) (queue jitter depay : Option ℕ) (r : VideoReceiver L)
      → HasTaken sdp r
      → r.sdp_settings.primary.destination_ip ≡ some ip
      → r.sdp_settings.primary.destination_port ≡ some port
      → r.sdp_settings.format ≡ video_info video
      → r.element_pad ≡ none
      → IsSourced sdp (assemble L answers video (ip, port) b queue jitter depay r)
  unfolding assemble
  assemble-IsSourced sdp answers video ip port b (some q) (some j) (some d) r a i p v h =
      link-IsSourced sdp answers _ (HasTaken-as sdp r _ a refl refl) (record {
        settings = r.sdp_settings;
        parsed = a.parsed;
        ip = ip;
        port = port;
        video = video;
        destination_ip = i;
        destination_port = p;
        format = v;
        address = refl;
        caps = refl;
        started = refl;
      })
  assemble-IsSourced sdp answers video ip port b none j d r a i p v h =
      IsSourced-if sdp _ (HasTaken-as sdp r _ a refl refl) (λ k. absurd (k h))
  assemble-IsSourced sdp answers video ip port b (some q) none d r a i p v h =
      IsSourced-if sdp _ (HasTaken-as sdp r _ a refl refl) (λ k. absurd (k h))
  assemble-IsSourced sdp answers video ip port b (some q) (some j) none r a i p v h =
      IsSourced-if sdp _ (HasTaken-as sdp r _ a refl refl) (λ k. absurd (k h))

  build-IsSourced :
      (sdp : String) (answers : Answers) (video : VideoSenderInfo L) (ip : String) (port : ℤ)
      (o : Option ℕ) (r : VideoReceiver L)
      → HasTaken sdp r
      → r.sdp_settings.primary.destination_ip ≡ some ip
      → r.sdp_settings.primary.destination_port ≡ some port
      → r.sdp_settings.format ≡ video_info video
      → r.element_pad ≡ none
      → IsSourced sdp (build L answers video (ip, port) o r)
  unfolding build
  build-IsSourced sdp answers video ip port none r a i p v h =
      IsSourced-if sdp r a (λ k. absurd (k h))
  build-IsSourced sdp answers video ip port (some b) r a i p v h =
      assemble-IsSourced sdp answers video ip port b answers.queue answers.jitter answers.depay r a
        i p v h

  construct_for-Safe :
      (sdp : String) (answers : Answers) (m : SenderMedia L) (r : VideoReceiver L)
      → HasTaken sdp r
      → r.sdp_settings.format ≡ m
      → r.element_pad ≡ none
      → Safe (IsSourced sdp) (construct_for L answers m r)
  unfolding construct_for
  construct_for-Safe sdp answers (audio_info v) r a e h =
      is_ok (IsSourced-if sdp r a (λ k. absurd (k h)))
  construct_for-Safe sdp answers (video_info v) r a e h =
      let (ip, n, i, p, lt) = a.addressed in
      Safe-bind _ (or_thrown-Safe r.sdp_settings.primary.destination_ip i) λ x j.
        Safe-bind _ (or_thrown-Safe r.sdp_settings.primary.destination_port p)
          λ y q. is_ok (build-IsSourced sdp answers v x y answers.bin r a j q e h)

  -- Without a pipeline, and with an address, a pipeline is built with no exception.
  pub construct_pipeline-Safe :
      (sdp : String) (answers : Answers) (r : VideoReceiver L)
      → HasTaken sdp r
      → r.element_pad ≡ none
      → Safe (IsSourced sdp) (construct_pipeline L answers r)
  unfolding construct_pipeline
  construct_pipeline-Safe sdp answers r a h =
      construct_for-Safe sdp answers r.sdp_settings.format r a refl h
