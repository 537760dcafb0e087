-- ===== src/Context/Resource.antt =====
-- resources/nmos_resource.h, nmos_resource_receiver.cpp and nmos_resource_sender.cpp: the objects of a
-- client's receivers and senders. The application's callbacks are not part of the repository: a call of
-- one is recorded with its arguments.
pub mod Requests
use nmos_sender_receiver_fra.Prelude.{
  ℕ, String, Bool, true, false, Option, none, some, str_eq, if◌then◌else◌,
}
use nmos_sender_receiver_fra.Expected.{Expected, ok, thrown, ◌>>=◌, ◌>>◌}
use nmos_sender_receiver_fra.Libraries.{Libraries}
use nmos_sender_receiver_fra.Json.Access.{or_thrown}
use nmos_sender_receiver_fra.Configuration.{
  Format, video, audio, ancillary, mux, unset, NmosReceiver, NmosSender, SenderMedia, video_info,
  audio_info,
}
use nmos_sender_receiver_fra.Context.ResourceMap.{ResourceType, sender, receiver, IsResource}

module _ (L : Libraries) where
  open L use {
    Json, Float, find_member, is_string, get_string, float_zero, payload_type_video_default,
    payload_type_audio_default, payload_type_data_default, payload_type_mux_default,
  }

  -- nmos_resource_receiver_t
  pub record ReceiverResource : Type 0 where
    pub config : NmosReceiver
    pub device_id : String
    pub master_enable : Bool
    pub sdp : Option String

  -- nmos_resource_sender_t
  pub record SenderResource : Type 0 where
    pub config : NmosSender L
    pub device_id : String
    pub master_enable : Bool
    pub sdp : Option String

  -- nmos_resource_t
  pub data Resource : Type 0 where
    receiver_resource : ReceiverResource → Resource
    sender_resource : SenderResource → Resource

  -- A call of the callback that was given for the resource with the id.
  pub data Call : Type 0 where
    receiver_call : String → Option String → Bool → Json → Call
    sender_call : String → Bool → Json → Call

  -- nmos_event_handler.h, sdp_info_t
  pub record SdpInfo : Type 0 where
    pub payload_type : ℕ
    pub packet_time : Float

  unfoldable pub new_receiver : String → NmosReceiver → Resource
  new_receiver device_id config =
      receiver_resource
        (record { config = config; device_id = device_id; master_enable = true; sdp = none })

  unfoldable pub new_sender : String → NmosSender L → Resource
  new_sender device_id config = sender_resource (record {
    config = config;
    device_id = device_id;
    master_enable = true;
    sdp = config.forced_sdp;
  })

  unfoldable pub get_id : Resource → String
  get_id (receiver_resource r) = r.config.id
  get_id (sender_resource s) = s.config.id

  unfoldable pub get_device_id : Resource → String
  get_device_id (receiver_resource r) = r.device_id
  get_device_id (sender_resource s) = s.device_id

  unfoldable pub get_resource_type : Resource → ResourceType
  get_resource_type (receiver_resource r) = receiver
  get_resource_type (sender_resource s) = sender

  abbrev pub resource_class : IsResource Resource
  resource_class = record { get_id = get_id; get_resource_type = get_resource_type }

  data_of : Option Json → Expected (Option String)
  data_of none = ok none
  data_of (some d) =
      let value : Expected (Option String) = (do s ← or_thrown (get_string d); ok (some s)) in
      if is_string d then value else ok none

  type_of : Json → Option Json → Expected (Option String)
  unfolding data_of
  type_of file none = ok none
  type_of file (some t) =
      let checked : Expected (Option String) = (do
        type_value ← or_thrown (get_string t)
        if str_eq type_value "application/sdp"
            then data_of (find_member file "data")
            else ok none) in
      if is_string t then checked else ok none

  sdp_of : Option Json → Expected (Option String)
  unfolding type_of
  sdp_of none = ok none
  sdp_of (some file) = type_of file (find_member file "type")

  unfoldable pub get_sdp_from_configuration : Json → Expected (Option String)
  unfolding sdp_of
  get_sdp_from_configuration configuration = sdp_of (find_member configuration "transport_file")

  -- The object after a patch.
  unfoldable pub handle_patch : Bool → Json → Resource → Expected Resource
  handle_patch true configuration (receiver_resource r) = do
    sdp ← get_sdp_from_configuration configuration
    ok (receiver_resource (record r { sdp = sdp }))
  handle_patch false configuration (receiver_resource r) =
      ok (receiver_resource (record r { sdp = none }))
  handle_patch enable configuration (sender_resource s) = ok (sender_resource s)

  -- The object after an activation, and the call of the callback.
  unfoldable pub handle_activation : Bool → Json → Resource → Resource × Call
  handle_activation enable params (receiver_resource r) = (
    receiver_resource (record r { master_enable = enable }),
    receiver_call r.config.id r.sdp enable params,
  )
  handle_activation enable params (sender_resource s) =
      (sender_resource (record s { master_enable = enable }), sender_call s.config.id enable params)

  unfoldable pub get_default_pt : Format → Expected ℕ
  get_default_pt video = ok payload_type_video_default
  get_default_pt audio = ok payload_type_audio_default
  get_default_pt ancillary = ok payload_type_data_default
  get_default_pt mux = ok payload_type_mux_default
  get_default_pt unset = thrown

  value_or : Option ℕ → ℕ → ℕ
  value_or none d = d
  value_or (some v) d = v

  -- std::get<audio_sender_info_t> throws for another alternative.
  packet_time_of : SenderMedia L → Expected Float
  packet_time_of (video_info v) = thrown
  packet_time_of (audio_info a) = ok a.packet_time

  unfoldable pub handle_sdp_info_request : Resource → Expected SdpInfo
  unfolding value_or packet_time_of
  handle_sdp_info_request (receiver_resource r) =
      ok (record { payload_type = 0; packet_time = float_zero })
  handle_sdp_info_request (sender_resource s) = do
    default ← get_default_pt s.config.format
    let payload_type = value_or s.config.payload_type default
    let audio_info : Expected SdpInfo = (do
      time ← packet_time_of s.config.media
      ok (record { payload_type = payload_type; packet_time = time }))
    if str_eq s.config.media_type "audio/L24"
        then audio_info
        else ok (record { payload_type = payload_type; packet_time = float_zero })
