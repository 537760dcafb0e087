-- ===== src/Plugin/Sender.antt =====
-- gst_nmos_sender_plugin.cpp: the element that sends a stream. What GStreamer's functions return is
-- an argument.
pub mod Blocked
pub mod SinkEvent
use nmos_sender_receiver_fra.Prelude.{
  true, ℕ, String, Bool, false, ◌&&◌, Option, none, some, List, [], ◌∷◌, ◌==◌, if◌then◌else◌,
}
use nmos_sender_receiver_fra.Prelude.Int.{ℤ, pos}
use nmos_sender_receiver_fra.Json.Api.{JsonApi}
use nmos_sender_receiver_fra.Json.Access.{or_thrown}
use nmos_sender_receiver_fra.Expected.{Expected, ok}
use nmos_sender_receiver_fra.Node.Action.{Action, update, lift, ◌>>=◌, ◌>>◌}
use nmos_sender_receiver_fra.Plugin.Params.{first_param, member, rtp_enabled}
use nmos_sender_receiver_fra.Plugin.Fields.{
  ConfigFields, VideoMediaFields, AudioMediaFields, default_sender_fields, translate_video_format,
}

-- The payloaders that the queue and udpsink can be linked through.
pub data Payloader : Type 0 where
  video_payloader audio_payloader_16 audio_payloader_24 : Payloader

-- What GStreamer tells of the first structure of caps, and how many structures there are.
pub record Caps : Type 0 where
  pub size : ℕ
  pub media_type : String
  pub rate : Option ℤ
  pub channels : Option ℤ
  pub width : Option ℤ
  pub height : Option ℤ
  pub format : Option String
  pub framerate : Option (ℤ × ℤ)

-- GstNmossender: `probes` are the probes that block the sink pad of the queue, `from_queue` and
-- `to_sink` the payloaders that were linked with the queue and with udpsink, `host`, `port` and
-- `bind_address` the properties of udpsink.
pub record SenderElement : Type 0 where
  pub block_id : ℕ
  pub client : Bool
  pub caps : Option Caps
  pub config : ConfigFields
  pub nmos_active : Bool
  pub probes : List ℕ
  pub from_queue : List Payloader
  pub to_sink : List Payloader
  pub host : String
  pub port : ℤ
  pub bind_address : Option String

-- gst_nmossender_init, where every object is made, of fields that held `config`.
unfoldable pub init : ConfigFields → SenderElement
init config = record {
  block_id = 0;
  client = false;
  caps = none;
  config = default_sender_fields config;
  nmos_active = false;
  probes = [];
  from_queue = [];
  to_sink = [];
  host = "127.0.0.1";
  port = pos 9999;
  bind_address = none;
}

-- gst_pad_add_probe gives the id of the probe, 0 where it adds none.
unfoldable pub add_probe : ℕ → SenderElement → SenderElement
add_probe id self = record self {
  block_id = id;
  probes = if id == 0 then self.probes else id ∷ self.probes;
}

-- gst_pad_remove_probe
unfoldable pub remove_probe : ℕ → List ℕ → List ℕ
remove_probe id [] = []
remove_probe id (p ∷ ps) = let rest = remove_probe id ps in if id == p then ps else p ∷ rest

unblock : SenderElement → SenderElement
unblock self =
    if self.block_id == 0
    then self
    else record self { probes = remove_probe self.block_id self.probes; block_id = 0 }

set_destination : String → ℤ → SenderElement → SenderElement
set_destination dest_ip dest_port self = record self { host = dest_ip; port = dest_port }

module _ (J : JsonApi) where
  open J use {Json, get_string, get_number}

  unfoldable pub read_or : {A : Type 0} → (Json → Option A) → A → Option Json → Expected A
  read_or get default none = ok default
  read_or get default (some v) = or_thrown (get v)

  -- The branch of an enabled sender.
  activate : ℕ → Option Json → Action SenderElement (Unit {0})
  unfolding read_or unblock set_destination
  activate id param = do
    update (λ self. if self.block_id == 0 then add_probe id self else self)
    dest_ip ← lift (read_or get_string "" (member J param "destination_ip"))
    dest_port ← lift (read_or get_number (pos 9999) (member J param "destination_port"))
    update (λ self. unblock (set_destination dest_ip dest_port self))

  -- sender_activation_callback; `id` is what gst_pad_add_probe gives.
  unfoldable pub on_activation : ℕ → Bool → Json → Action SenderElement (Unit {0})
  unfolding activate
  on_activation id master_enabled transport_params =
      let param = first_param J transport_params in
      do
        rtp ← lift (rtp_enabled J param)
        if master_enabled && rtp then activate id param else update (add_probe id)

-- create_nmos: `node` tells that create_node_config is not null, `created` that
-- nmos_client_t::create gives a client.
create_nmos : Bool → Bool → SenderElement → SenderElement
create_nmos node created self = if node && created then record self { client = true } else self

-- gst_nmossender_change_state at PAUSED_TO_PLAYING; it does nothing else at another change.
unfoldable pub paused_to_playing : Bool → Bool → SenderElement → SenderElement
unfolding create_nmos
paused_to_playing node created self =
    if self.nmos_active then self else record (create_nmos node created self) { nmos_active = true }
