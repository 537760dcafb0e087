-- ===== src/Plugin/VideoReceiver.antt =====
-- gst_nmos_video_receiver_plugin.cpp: the element that receives video. GStreamer is not part of the
-- repository: what its functions return while a pipeline is built is an argument, `Answers`, and an
-- object of GStreamer is its number. A call on a null pointer has no effect.
pub mod Steps
use nmos_sender_receiver_fra.Prelude.{
  ℕ, ◌-◌, ◌*◌, String, Bool, true, false, not, ◌&&◌, Option, none, some, List, [], ◌∷◌, str_eq, ltb,
  ◌==◌, if◌then◌else◌,
}
use nmos_sender_receiver_fra.Expected.{Expected, ok, unexpected, thrown, undefined, ◌>>=◌, ◌>>◌}
use nmos_sender_receiver_fra.Prelude.Int.{ℤ}
use nmos_sender_receiver_fra.Libraries.{Libraries}
use nmos_sender_receiver_fra.Json.Access.{or_thrown}
use nmos_sender_receiver_fra.Configuration.{SenderMedia, VideoSenderInfo, video_info, audio_info}
use nmos_sender_receiver_fra.Sdp.Settings.{SdpSettings}
use nmos_sender_receiver_fra.Sdp.Reader.{SdpLibrary, parse_sdp}
use nmos_sender_receiver_fra.Plugin.Bins.{take_out}
use nmos_sender_receiver_fra.Plugin.Params.{first_param, rtp_enabled}

-- What GStreamer returns while a pipeline is built; none is a null pointer.
pub record Answers : Type 0 where
  -- create_bin and create_element
  pub bin : Option ℕ
  pub queue : Option ℕ
  pub jitter : Option ℕ
  pub depay : Option ℕ
  -- gst_element_link_many
  pub linked : Bool
  -- the pad of rtp_video_depay, gst_ghost_pad_new and gst_element_add_pad
  pub src_pad : Option ℕ
  pub ghost_pad : Option ℕ
  pub pad_added : Bool
  -- the pad of the element, and gst_ghost_pad_set_target
  pub plugin_pad : Option ℕ
  pub targeted : Bool

-- GstStateChange
pub data Transition : Type 0 where
  null_to_ready ready_to_paused paused_to_playing other_transition : Transition

module _ (L : Libraries) where
  open L use {json, Json}

  -- GstNmosvideoreceiver, with what its calls leave in GStreamer: `bins`, the bins put into the
  -- element and not taken out; `source_address` and `caps`, the properties of udp_src, whose caps hold
  -- the width, the height, the sampling, the depth and the frame rate of the video; `source_started`,
  -- that the last call on udp_src's state let it run, by gst_element_sync_state_with_parent or
  -- GST_STATE_PLAYING, and did not stop it, by GST_STATE_NULL: then a buffer may come, if the bin around
  -- the element runs too, whose state is not modelled; `target`, what the element's pad shows;
  -- `playing`, that the element was set to PLAYING.
  pub record VideoReceiver : Type 0 where
    pub element_pad : Option ℕ
    pub bin_pad : Option ℕ
    pub bin : Option ℕ
    pub rtp_video_depay : Option ℕ
    pub rtp_jitter_buffer : Option ℕ
    pub queue : Option ℕ
    pub client : Bool
    pub sdp_settings : SdpSettings L
    pub sdp_string : String
    pub nmos_active : Bool
    pub pipeline_clear : Bool
    pub user_forced_stop : Bool
    pub last_buffer_time : ℕ
    pub bins : List ℕ
    pub source_address : Option (String × ℤ)
    pub caps : Option (VideoSenderInfo L)
    pub source_started : Bool
    pub target : Option ℕ
    pub playing : Bool

  -- gst_nmosvideoreceiver_init, at the time `now`, of memory that holds the settings `memory`.
  unfoldable pub init : SdpSettings L → ℕ → VideoReceiver
  init memory now = record {
    element_pad = none;
    bin_pad = none;
    bin = none;
    rtp_video_depay = none;
    rtp_jitter_buffer = none;
    queue = none;
    client = false;
    sdp_settings = memory;
    sdp_string = "";
    nmos_active = false;
    pipeline_clear = true;
    user_forced_stop = false;
    last_buffer_time = now;
    bins = [];
    source_address = none;
    caps = none;
    source_started = false;
    target = none;
    playing = false;
  }

  take_down : VideoReceiver → VideoReceiver
  take_down self = record self {
    source_started = false;
    bins = take_out self.bin self.bins;
    queue = none;
    rtp_jitter_buffer = none;
    rtp_video_depay = none;
    bin = none;
    element_pad = none;
  }

  pub remove_from : Option ℕ → VideoReceiver → VideoReceiver
  unfolding take_down
  remove_from none self = self
  remove_from (some pad) self = take_down self

  -- The probe that blocks the pad meanwhile is removed at the end. `bin` is null where it is set to
  -- PLAYING.
  unfoldable pub remove_old_bin : VideoReceiver → VideoReceiver
  unfolding remove_from
  remove_old_bin self = remove_from self.element_pad self

  unfoldable pub buffer_monitor_probe : ℕ → VideoReceiver → VideoReceiver
  buffer_monitor_probe now self = record self {
    last_buffer_time = now;
    pipeline_clear = if self.pipeline_clear then false else self.pipeline_clear;
  }

  -- The element's pad shows the ghost pad, where its target could be set.
  abbrev set_target : Answers → ℕ → ℕ → VideoReceiver → VideoReceiver
  set_target answers ghost pad self = record self {
    element_pad = some pad;
    target = if answers.targeted then some ghost else self.target;
  }

  -- From the creation of the ghost pad on.
  show : Answers → Option ℕ → Option ℕ → VideoReceiver → VideoReceiver
  show answers none plugin_pad self = self
  show answers (some ghost) none self = self
  show answers (some ghost) (some pad) self =
      if answers.pad_added then set_target answers ghost pad self else self

  abbrev set_bin_pad : Answers → VideoReceiver → VideoReceiver
  set_bin_pad answers self = record self { bin_pad = answers.ghost_pad }

  -- From the pad of rtp_video_depay on.
  expose : Answers → Option ℕ → VideoReceiver → VideoReceiver
  unfolding show
  expose answers none self = self
  expose answers (some pad) self =
      show answers answers.ghost_pad answers.plugin_pad (set_bin_pad answers self)

  -- From the linking of the elements on.
  link : Answers → VideoReceiver → VideoReceiver
  unfolding expose
  link answers self = if answers.linked then expose answers answers.src_pad self else self

  -- From the creation of the elements on.
  assemble :
      Answers
      → VideoSenderInfo L
      → String × ℤ
      → ℕ
      → Option ℕ
      → Option ℕ
      → Option ℕ
      → VideoReceiver
      → VideoReceiver
  unfolding link
  assemble answers video address b (some queue) (some jitter) (some depay) self =
      link answers (record self {
        bin = some b;
        queue = some queue;
        rtp_jitter_buffer = some jitter;
        rtp_video_depay = some depay;
        source_address = some address;
        caps = some video;
        bins = b ∷ self.bins;
        source_started = true;
      })
  assemble answers video address b _ _ _ self = record self { bin = some b }

  build : Answers → VideoSenderInfo L → String × ℤ → Option ℕ → VideoReceiver → VideoReceiver
  unfolding assemble
  build answers video address none self = self
  build answers video address (some b) self =
      assemble answers video address b answers.queue answers.jitter answers.depay self

  -- std::bad_variant_access is caught, std::bad_optional_access is not.
  construct_for : Answers → SenderMedia L → VideoReceiver → Expected VideoReceiver
  unfolding build
  construct_for answers (video_info video) self = do
    ip ← or_thrown self.sdp_settings.primary.destination_ip
    port ← or_thrown self.sdp_settings.primary.destination_port
    ok (build answers video (ip, port) answers.bin self)
  construct_for answers (audio_info audio) self = ok self

  unfoldable pub construct_pipeline : Answers → VideoReceiver → Expected VideoReceiver
  unfolding construct_for
  construct_pipeline answers self = construct_for answers self.sdp_settings.format self

  abbrev start_source : VideoReceiver → VideoReceiver
  start_source self = record self { source_started = true }

  abbrev clear : VideoReceiver → VideoReceiver
  clear self = record self { pipeline_clear = true }

  abbrev force : Bool → VideoReceiver → VideoReceiver
  force stop self = record self { user_forced_stop = stop }

  abbrev set_settings : SdpSettings L → String → VideoReceiver → VideoReceiver
  set_settings settings sdp self = record self { sdp_settings = settings; sdp_string = sdp }

  abbrev set_playing : VideoReceiver → VideoReceiver
  set_playing self = record self { playing = true }

  -- No buffer came in the last six seconds, and one did before.
  abbrev is_stalled : ℕ → VideoReceiver → Bool
  is_stalled now self = ltb (6 * 1000000) (now - self.last_buffer_time) && not self.pipeline_clear

  unfoldable pub check_no_data_timeout : ℕ → Answers → VideoReceiver → Expected VideoReceiver
  check_no_data_timeout now answers self =
      if self.user_forced_stop
      then ok self
      else if is_stalled now self
      then (do
        built ← construct_pipeline answers (start_source (remove_old_bin (clear self)))
        ok (set_playing built))
      else ok self

  -- remove_old_bin, construct_pipeline and gst_element_set_state.
  rebuild : Answers → VideoReceiver → Expected VideoReceiver
  rebuild answers self = do
    built ← construct_pipeline answers (remove_old_bin self)
    ok (set_playing built)

  -- What is done with the result of parse_sdp.
  take_settings :
      Answers → String → Expected (SdpSettings L) → VideoReceiver → Expected VideoReceiver
  unfolding rebuild
  take_settings answers sdp (ok settings) self =
      if str_eq sdp self.sdp_string
      then ok self
      else rebuild answers (set_settings settings sdp self)
  take_settings answers sdp (unexpected e) self = ok self
  take_settings answers sdp thrown self = thrown
  take_settings answers sdp undefined self = undefined

  unfoldable pub disable : Option String → VideoReceiver → VideoReceiver
  disable none self = force true self
  disable (some sdp) self = remove_old_bin (force true self)

  module _ (S : SdpLibrary L) where
    unfoldable pub enable : Answers → Option String → VideoReceiver → Expected VideoReceiver
    unfolding take_settings rebuild
    enable answers (some sdp) self =
        take_settings answers sdp (parse_sdp L S sdp) (force false self)
    enable answers none self =
        if str_eq self.sdp_string ""
        then ok (force false self)
        else rebuild answers (force false self)

    -- The callback that is given to add_receiver.
    unfoldable pub on_activation :
        Answers → Option String → Bool → Json → VideoReceiver → Expected VideoReceiver
    on_activation answers sdp master_enabled transport_params self = do
      rtp ← rtp_enabled json (first_param json transport_params)
      if master_enabled && rtp then enable answers sdp self else ok (disable sdp self)

  abbrev set_client : VideoReceiver → VideoReceiver
  set_client self = record self { client = true }

  abbrev set_active : VideoReceiver → VideoReceiver
  set_active self = record self { nmos_active = true }

  -- create_nmos: `config` tells that create_node_config is not null, `created` that
  -- nmos_client_t::create gives a client. The results of add_device and add_receiver are not looked at.
  create_nmos : Bool → Bool → VideoReceiver → VideoReceiver
  create_nmos config created self = if config && created then set_client self else self

  -- The part of gst_nmosvideoreceiver_change_state before the parent class changes the states of the
  -- elements in the bin, which are not modelled.
  unfoldable pub change_state : Transition → Bool → Bool → VideoReceiver → VideoReceiver
  unfolding create_nmos
  change_state null_to_ready config created self =
      if self.nmos_active then self else set_active (create_nmos config created self)
  change_state _ config created self = self
