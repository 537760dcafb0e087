-- ===== src/Node/Make.antt =====
-- nmos_controller.cpp, the functions that make resources. Those of nmos-cpp that they call are not part
-- of the repository: `Factory` has them, with the node's settings and the version applied.
pub mod Labels
use nmos_sender_receiver_fra.Prelude.{
  ℕ, zero, suc, ◌%◌, String, Bool, List, [], ◌∷◌, ◌==◌, if◌then◌else◌,
}
use nmos_sender_receiver_fra.Prelude.Int.{ℤ, wrap}
use nmos_sender_receiver_fra.Expected.{Expected, other, ok, unexpected, undefined, ◌>>=◌}
use nmos_sender_receiver_fra.Libraries.{Libraries}
use nmos_sender_receiver_fra.Configuration.{
  NmosReceiver, NmosSender, NmosDevice, MetaInfo, SenderMedia, video_info, audio_info,
  VideoSenderInfo, AudioSenderInfo, Format, video, audio, ancillary, mux, unset, MediaType,
  InterlaceMode,
}
use nmos_sender_receiver_fra.Node.Api.{Nmos}
use nmos_sender_receiver_fra.Node.Impl.{Makers}
use nmos_sender_receiver_fra.Node.Transport.{
  WebValues, get_interface_names_from_network, make_connection_sender, make_connection_receiver,
}

-- bisect::channels_repeat
pub data Channel : Type 0 where
  left_channel right_channel center_channel low_frequency_effects_channel : Channel

-- channels_repeat[index % 4]
channel_at : ℕ → Channel
channel_at index =
    let i = index % 4 in
    if i == 0
    then left_channel
    else if i == 1
    then right_channel
    else if i == 2
    then center_channel
    else low_frequency_effects_channel

-- The channels from an index on.
channels_from : ℕ → ℕ → List Channel
channels_from index zero = []
channels_from index (suc n) = channel_at index ∷ channels_from (suc index) n

-- The range of boost is for numbers that are not negative.
unfoldable pub channels_for : ℤ → Expected (List Channel)
unfolding channels_from channel_at
channels_for (ℤ.pos n) = ok (channels_from 0 n)
channels_for (ℤ.negsuc n) = undefined

module _ (L : Libraries) (nmos : Nmos L) where
  open L use {Web, Rational, of_int}
  open nmos use {Item, item_data, with_data}

  pub record Factory : Type 0 where
    -- nmos::make_device and the like, and the manifest's address
    pub device : String → String → List String → List String → Item
    pub receiver : String → String → List String → Format → List MediaType → Item
    pub sender : String → String → String → String → List String → Item
    pub manifest : String → String
    pub video_source : String → String → Rational → Item
    pub audio_source : String → String → Rational → List Channel → Item
    pub raw_audio_flow : String → String → String → ℤ → ℕ → Item
    -- the width and the height have 32 bits
    pub video_flow : String → String → String → Rational → ℕ → ℕ → InterlaceMode → Item
    pub components : ℕ → ℕ → Web
    -- nmos::make_rational of an int, merge_patch(data, patch, true)
    pub rational : ℤ → Web
    pub merge_patch : Web → Web → Web
    -- nmos::make_connection_rtp_receiver and sender, nmos::make_version()
    pub connection_receiver : String → Bool → Item
    pub connection_sender : String → Bool → Item
    pub version : Web

  module _ (W : WebValues L) (F : Factory) where
    open W use {is_null, string, member, set_member}

    set_data : String → Web → Item → Item
    set_data key v x = with_data x (set_member (item_data x) key v)

    unfoldable pub set_label : String → Item → Item
    unfolding set_data
    set_label label = set_data "label" (string label)

    unfoldable pub set_description : String → Item → Item
    unfolding set_data
    set_description description = set_data "description" (string description)

    -- What is given besides the configuration, unless it is null.
    merged : Web → Item → Item
    merged extra x = if is_null extra then x else with_data x (F.merge_patch (item_data x) extra)

    -- set_label and set_description of a configuration.
    describe : MetaInfo → Item → Item
    describe info x = set_description info.description (set_label info.label x)

    unfoldable pub make_device : List String → List String → NmosDevice → Item
    unfolding describe
    make_device receivers_ids senders_ids config =
        describe config.meta (F.device config.id config.node_id senders_ids receivers_ids)

    set_versions : Item → Item
    set_versions x = with_data x (
        set_member
          (set_member (item_data x) "caps"
            (set_member (member (item_data x) "caps") "version" F.version))
          "version" F.version)

    unfoldable pub make_receiver : String → NmosReceiver → Item
    unfolding describe set_versions
    make_receiver device_id config = set_versions (
        describe config.meta (
          F.receiver config.id device_id (get_interface_names_from_network L W config.network)
            config.format config.media_types))

    -- std::get of the other alternative throws.
    video_of : SenderMedia L → Expected (VideoSenderInfo L)
    video_of (video_info info) = ok info
    video_of (audio_info info) = Expected.thrown

    audio_of : SenderMedia L → Expected (AudioSenderInfo L)
    audio_of (audio_info info) = ok info
    audio_of (video_info info) = Expected.thrown

    source_for : String → NmosSender L → Format → Expected Item
    unfolding video_of audio_of
    source_for device_id s video = do
      info ← video_of s.media
      ok (F.video_source s.source.id device_id info.exact_framerate)
    source_for device_id s audio = do
      info ← audio_of s.media
      channels ← channels_for info.number_of_channels
      ok (F.audio_source s.source.id device_id (of_int info.sampling_rate) channels)
    source_for device_id s _ = unexpected (other "invalid format")

    unfoldable pub do_make_source : String → NmosSender L → Expected Item
    unfolding source_for
    do_make_source device_id s = source_for device_id s s.format

    unfoldable pub make_source : String → NmosSender L → Expected Item
    unfolding describe
    make_source device_id config = do
      source ← do_make_source device_id config
      ok (describe config.source source)

    unfoldable pub make_audio_flow : String → String → MetaInfo → AudioSenderInfo L → Expected Item
    unfolding describe set_data
    make_audio_flow device_id source_id flow_config media = ok (
        describe flow_config (
          set_data "grain_rate" (F.rational media.sampling_rate) (
            F.raw_audio_flow flow_config.id source_id device_id media.sampling_rate
              media.bits_per_sample)))

    unfoldable pub make_video_flow :
        String → String → MetaInfo → Web → String → VideoSenderInfo L → Expected Item
    unfolding describe set_data merged
    make_video_flow device_id source_id flow_config extra media_type media =
        let frame_width = wrap 32 media.width in
        let frame_height = wrap 32 media.height in
        ok (
          describe flow_config (
            merged extra (
              set_data "components" (F.components frame_width frame_height) (
                set_data "media_type" (string media_type) (
                  F.video_flow flow_config.id source_id device_id media.exact_framerate frame_width
                    frame_height media.structure)))))

    unfoldable pub make_sender : String → NmosSender L → Item
    unfolding describe merged
    make_sender device_id config = describe config.meta (
        merged config.extra (
          F.sender config.id config.flow.id device_id (F.manifest config.id)
            (get_interface_names_from_network L W config.network)))

    -- The node's operations with these functions; a new device has no senders and receivers yet.
    abbrev pub makers : Makers L nmos
    makers = record {
      make_device = make_device [] [];
      make_receiver = make_receiver;
      make_connection_receiver = λ device_id config.
          make_connection_receiver L W nmos F.version F.connection_receiver config;
      make_source = make_source;
      make_video_flow = make_video_flow;
      make_audio_flow = make_audio_flow;
      make_sender = make_sender;
      make_connection_sender =
          λ device_id config. make_connection_sender L W nmos F.version F.connection_sender config;
    }
