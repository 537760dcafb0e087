-- ===== src/Plugin/AudioReceiver.antt =====
-- gst_nmos_audio_receiver_plugin.cpp: the element that receives audio. What GStreamer's functions
-- return while a pipeline is built is an argument, `Answers`, and an object of GStreamer is its number.
pub mod Stopped
pub mod Played
pub mod Tidy
use nmos_sender_receiver_fra.Prelude.{
  false, [], ℕ, String, Bool, true, ◌&&◌, Option, none, some, List, ◌∷◌, str_eq, ◌==◌,
  if◌then◌else◌,
}
use nmos_sender_receiver_fra.Prelude.Int.{ℤ}
use nmos_sender_receiver_fra.Expected.{Expected, ok, unexpected, thrown, undefined, ◌>>=◌, ◌>>◌}
use nmos_sender_receiver_fra.Libraries.{Libraries}
use nmos_sender_receiver_fra.Json.Access.{or_thrown}
use nmos_sender_receiver_fra.Configuration.{SenderMedia, AudioSenderInfo, video_info, audio_info}
use nmos_sender_receiver_fra.Sdp.Settings.{SdpSettings}
use nmos_sender_receiver_fra.Sdp.Reader.{SdpLibrary, parse_sdp}
use nmos_sender_receiver_fra.Plugin.Bins.{take_out}
use nmos_sender_receiver_fra.Plugin.Params.{first_param, rtp_enabled}

-- What GStreamer returns while a pipeline is built; none is a null pointer.
pub record Answers : Type 0 where
  -- create_bin and create_element
  pub bin : Option ℕ
  pub udp_src : Option ℕ
  pub queue : Option ℕ
  pub jitter : Option ℕ
  pub depay_16 : Option ℕ
  pub depay_24 : Option ℕ
  -- gst_element_link_many
  pub linked : Bool
  -- the pad of the depayloader, gst_ghost_pad_new and gst_element_add_pad
  pub src_pad : Option ℕ
  pub ghost_pad : Option ℕ
  pub pad_added : Bool
  -- the pad of the element, and gst_ghost_pad_set_target
  pub plugin_pad : Option ℕ
  pub targeted : Bool

-- The elements of the bin.
pub record Elements : Type 0 where
  pub udp_src : ℕ
  pub queue : ℕ
  pub rtp_jitter_buffer : ℕ
  pub rtp_audio_depay_16 : ℕ
  pub rtp_audio_depay_24 : ℕ

module _ (L : Libraries) where
  open L use {json, Json}

  -- GstNmosaudioreceiver; the five handles of elements are set and forgotten together, none is null.
  -- What the calls leave in GStreamer: `bins`, the bins put into the element and not taken out;
  -- `source_address` and `caps`, the properties of udp_src, whose caps hold the sampling rate and the
  -- number of channels; `depay`, the depayloader that was linked; `target`, what the element's pad
  -- shows; `playing`, that the element was set to PLAYING.
  pub record AudioReceiver : Type 0 where
    pub element_pad : Option ℕ
    pub bin_pad : Option ℕ
    pub bin : Option ℕ
    pub elements : Option Elements
    pub client : Bool
    pub sdp_string : String
    pub sdp_settings : SdpSettings L
    pub nmos_active : Bool
    pub bins : List ℕ
    pub source_address : Option (String × ℤ)
    pub caps : Option (AudioSenderInfo L)
    pub depay : Option ℕ
    pub target : Option ℕ
    pub playing : Bool

  -- gst_nmosaudioreceiver_init, of memory that holds the settings `memory`.
  unfoldable pub init : SdpSettings L → AudioReceiver
  init memory = record {
    element_pad = none;
    bin_pad = none;
    bin = none;
    elements = none;
    client = false;
    sdp_string = "";
    sdp_settings = memory;
    nmos_active = false;
    bins = [];
    source_address = none;
    caps = none;
    depay = none;
    target = none;
    playing = false;
  }

  take_down : AudioReceiver → AudioReceiver
  take_down self = record self { bins = take_out self.bin self.bins; elements = none; bin = none }

  pub remove_from : Option ℕ → AudioReceiver → AudioReceiver
  unfolding take_down
  remove_from none self = self
  remove_from (some pad) self = take_down self

  -- The probe that blocks the pad meanwhile is removed at the end, and `element_pad` stays.
  unfoldable pub remove_old_bin : AudioReceiver → AudioReceiver
  unfolding remove_from
  remove_old_bin self = remove_from self.element_pad self

  abbrev set_target : Answers → ℕ → ℕ → AudioReceiver → AudioReceiver
  set_target answers ghost pad self = record self {
    element_pad = some pad;
    target = if answers.targeted then some ghost else self.target;
  }

  abbrev add_bin : AudioReceiver → AudioReceiver
  add_bin self = record self { bins = elim self.bin [ none ↦ self.bins | some b ↦ b ∷ self.bins ] }

  -- From gst_bin_add on.
  show : Answers → ℕ → Option ℕ → AudioReceiver → AudioReceiver
  show answers ghost none self = add_bin self
  show answers ghost (some pad) self = set_target answers ghost pad (add_bin self)

  -- From the creation of the ghost pad on.
  ghosted : Answers → Option ℕ → AudioReceiver → AudioReceiver
  unfolding show
  ghosted answers none self = self
  ghosted answers (some ghost) self =
      if answers.pad_added then show answers ghost answers.plugin_pad self else self

  abbrev set_bin_pad : Answers → AudioReceiver → AudioReceiver
  set_bin_pad answers self = record self { bin_pad = answers.ghost_pad }

  -- From the pad of the depayloader on.
  expose : Answers → Option ℕ → AudioReceiver → AudioReceiver
  unfolding ghosted
  expose answers none self = self
  expose answers (some pad) self = ghosted answers answers.ghost_pad (set_bin_pad answers self)

  abbrev set_depay : ℕ → AudioReceiver → AudioReceiver
  set_depay depay self = record self { depay = some depay }

  -- The linking through the depayloader of 16 or of 24 bits, and what follows.
  link : Answers → ℕ → AudioReceiver → AudioReceiver
  unfolding expose
  link answers depay self =
      if answers.linked then expose answers answers.src_pad (set_depay depay self) else self

  abbrev depay_for : AudioSenderInfo L → Elements → ℕ
  depay_for audio elements =
      if audio.bits_per_sample == 16
      then elements.rtp_audio_depay_16
      else elements.rtp_audio_depay_24

  abbrev set_elements : AudioSenderInfo L → String × ℤ → Elements → AudioReceiver → AudioReceiver
  set_elements audio address elements self = record self {
    elements = some elements;
    source_address = some address;
    caps = some audio;
  }

  -- From the creation of the elements on.
  assemble :
      Answers → AudioSenderInfo L → String × ℤ → Option Elements → AudioReceiver → AudioReceiver
  unfolding link
  assemble answers audio address none self = self
  assemble answers audio address (some elements) self =
      link answers (depay_for audio elements) (set_elements audio address elements self)

  all_of : Option ℕ → Option ℕ → Option ℕ → Option ℕ → Option ℕ → Option Elements
  all_of (some s) (some q) (some j) (some d) (some e) = some (record {
    udp_src = s;
    queue = q;
    rtp_jitter_buffer = j;
    rtp_audio_depay_16 = d;
    rtp_audio_depay_24 = e;
  })
  all_of _ _ _ _ _ = none

  abbrev set_bin : ℕ → AudioReceiver → AudioReceiver
  set_bin b self = record self { bin = some b }

  build : Answers → AudioSenderInfo L → String × ℤ → Option ℕ → AudioReceiver → AudioReceiver
  unfolding assemble all_of
  build answers audio address none self = self
  build answers audio address (some b) self =
      assemble answers audio address
        (all_of answers.udp_src answers.queue answers.jitter answers.depay_16 answers.depay_24)
        (set_bin b self)

  -- std::bad_variant_access is caught, std::bad_optional_access is not.
  construct_for : Answers → SenderMedia L → AudioReceiver → Expected AudioReceiver
  unfolding build
  construct_for answers (audio_info audio) self = do
    ip ← or_thrown self.sdp_settings.primary.destination_ip
    port ← or_thrown self.sdp_settings.primary.destination_port
    ok (build answers audio (ip, port) answers.bin self)
  construct_for answers (video_info video) self = ok self

  unfoldable pub construct_pipeline : Answers → AudioReceiver → Expected AudioReceiver
  unfolding construct_for
  construct_pipeline answers self = construct_for answers self.sdp_settings.format self

  abbrev set_playing : AudioReceiver → AudioReceiver
  set_playing self = record self { playing = true }

  abbrev set_settings : SdpSettings L → String → AudioReceiver → AudioReceiver
  set_settings settings sdp self = record self { sdp_settings = settings; sdp_string = sdp }

  -- remove_old_bin, construct_pipeline and gst_element_set_state.
  rebuild : Answers → AudioReceiver → Expected AudioReceiver
  rebuild answers self = do
    built ← construct_pipeline answers (remove_old_bin self)
    ok (set_playing built)

  -- What is done with the result of parse_sdp.
  take_settings :
      Answers → String → Expected (SdpSettings L) → AudioReceiver → Expected AudioReceiver
  unfolding rebuild
  take_settings answers sdp (ok settings) self =
      if str_eq sdp self.sdp_string
      then ok self
      else rebuild answers (set_settings settings sdp self)
  take_settings answers sdp (unexpected e) self = ok self
  take_settings answers sdp thrown self = thrown
  take_settings answers sdp undefined self = undefined

  unfoldable pub disable : Option String → AudioReceiver → AudioReceiver
  disable none self = self
  disable (some sdp) self = remove_old_bin self

  module _ (S : SdpLibrary L) where
    unfoldable pub enable : Answers → Option String → AudioReceiver → Expected AudioReceiver
    unfolding take_settings rebuild
    enable answers (some sdp) self = take_settings answers sdp (parse_sdp L S sdp) self
    enable answers none self = if str_eq self.sdp_string "" then ok self else rebuild answers self

    -- The callback that is given to add_receiver.
    unfoldable pub on_activation :
        Answers → Option String → Bool → Json → AudioReceiver → Expected AudioReceiver
    on_activation answers sdp master_enabled transport_params self = do
      rtp ← rtp_enabled json (first_param json transport_params)
      if master_enabled && rtp then enable answers sdp self else ok (disable sdp self)

  -- create_nmos: `config` tells that create_node_config is not null, `created` that
  -- nmos_client_t::create gives a client. The results of add_device and add_receiver are not looked at.
  create_nmos : Bool → Bool → AudioReceiver → AudioReceiver
  create_nmos config created self =
      if config && created then record self { client = true } else self

  -- gst_nmosaudioreceiver_change_state at NULL_TO_READY; it does nothing else at another change.
  unfoldable pub null_to_ready : Bool → Bool → AudioReceiver → AudioReceiver
  unfolding create_nmos
  null_to_ready config created self =
      if self.nmos_active
      then self
      else record (create_nmos config created self) { nmos_active = true }
