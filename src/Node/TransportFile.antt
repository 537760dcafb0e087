-- ===== src/Node/TransportFile.antt =====
-- bisect_nmoscpp's utils.cpp and nmos_controller.cpp: the transport files of senders. What nmos-cpp reads
-- of resources and makes of them is `Sessions`.
pub mod Built
pub mod Updated
use nmos_sender_receiver_fra.Prelude.{
  ℕ, String, Bool, not, Option, none, some, List, [], ◌∷◌, ltb, if◌then◌else◌,
}
use nmos_sender_receiver_fra.Expected.{Expected, other, ok, unexpected, thrown, undefined, ◌>>=◌}
use nmos_sender_receiver_fra.Libraries.{Libraries}
use nmos_sender_receiver_fra.Configuration.{Format, video, audio, ancillary, mux, unset}
use nmos_sender_receiver_fra.Context.Resource.{SdpInfo}
use nmos_sender_receiver_fra.Node.Action.{Action, proceed, attempt}
use nmos_sender_receiver_fra.Node.Api.{Nmos}
use nmos_sender_receiver_fra.Node.Controller.{
  of_node, of_connection, Model, find_resource_after, modify_resource_after,
}

module _ (L : Libraries) (nmos : Nmos L) where
  open L use {Web, web_null}
  open nmos use {Item, Store, item_id, item_data, with_data, set_field, find_resource}

  pub record Sessions : Type 1 where
    -- data.at(endpoint_staged).at(master_enable).as_bool(), data.at(key).as_string()
    pub staged_master_enable : Web → Expected Bool
    pub text_at : Web → String → Expected String
    -- nmos::find_self_resource, and nmos::find_resource of a type
    pub find_self : Store → Option Item
    pub find_node : Store → String → Option Item
    pub find_flow : Store → String → Option Item
    pub find_source : Store → String → Option Item
    -- nmos::fields::format, channels(...).size(), transport_params(endpoint_active(...))
    pub format : Web → Expected Format
    pub channels : Web → Expected ℕ
    pub active_params : Web → Expected Web
    -- nmos::make_video_sdp_parameters and the like, of a node, source, flow, sender and payload type
    pub SdpParameters : Type 0
    pub video_parameters : Web → Web → Web → Web → ℕ → Expected SdpParameters
    -- with a packet time of 1 ms or, where true, of 125 us
    pub audio_parameters : Web → Web → Web → Web → ℕ → Bool → Expected SdpParameters
    pub data_parameters : Web → Web → Web → Web → ℕ → Expected SdpParameters
    pub mux_parameters : Web → Web → Web → Web → ℕ → Expected SdpParameters
    -- the text of nmos::make_session_description, std::regex_replace of its end
    pub session_text : SdpParameters → Web → Expected String
    pub terminated : String → String
    -- nmos::make_connection_rtp_sender_transportfile
    pub transportfile : String → Web

  module _ (S : Sessions) where
    open S use {
      staged_master_enable, text_at, find_self, find_node, find_flow, find_source, format, channels,
      active_params, SdpParameters, video_parameters, audio_parameters, data_parameters,
      mux_parameters, session_text, terminated, transportfile,
    }

    -- `->` of the end of the resources is undefined.
    self_id : Option Item → Expected String
    self_id none = undefined
    self_id (some item) = ok (item_id item)

    both : Option Item → Option Item → Expected (Item × Item)
    both (some node) (some flow) = ok (node, flow)
    both none flow = unexpected (other "matching IS-04 node, flow not found")
    both (some node) none = unexpected (other "matching IS-04 node, flow not found")

    source_or : Option Item → Expected Item
    source_or none = unexpected (other "matching IS-04 source not found")
    source_or (some source) = ok source

    parameters_for : Format → Web → Web → Web → Web → ℕ → Expected SdpParameters
    parameters_for video node source flow sender pt = video_parameters node source flow sender pt
    parameters_for audio node source flow sender pt = do
      count ← channels source
      audio_parameters node source flow sender pt (ltb 8 count)
    parameters_for ancillary node source flow sender pt = data_parameters node source flow sender pt
    parameters_for mux node source flow sender pt = mux_parameters node source flow sender pt
    parameters_for unset node source flow sender pt = unexpected (other "unexpected flow format")

    -- The part for a sender that is enabled.
    session_file : Store → Expected (SdpInfo L) → Item → Item → Expected Web
    unfolding self_id both source_or parameters_for
    session_file node_resources sdp_info sender connection_sender = do
      info ← sdp_info
      node_id ← self_id (find_self node_resources)
      flow_id ← text_at (item_data sender) "flow_id"
      found ← both (find_node node_resources node_id) (find_flow node_resources flow_id)
      source_id ← text_at (item_data found.1) "source_id"
      source ← source_or (find_source node_resources source_id)
      kind ← format (item_data found.1)
      sdp_params ←
          parameters_for kind (item_data found.0) (item_data source) (item_data found.1)
            (item_data sender) info.payload_type
      transport_params ← active_params (item_data connection_sender)
      txt ← session_text sdp_params transport_params
      ok (transportfile (terminated txt))

    -- The endpoint's transport file. `sdp_info` is what the event handler answers for the sender.
    unfoldable pub build_transport_file : Store → Expected (SdpInfo L) → Item → Item → Expected Web
    unfolding session_file
    build_transport_file node_resources sdp_info sender connection_sender =
        staged_master_enable (item_data connection_sender) >>= λ master_enable.
        if master_enable
        then session_file node_resources sdp_info sender connection_sender
        else ok web_null

    -- The connection with the file, or as it was where there is none.
    abbrev pub stored : Expected Web → Item → Item
    stored (ok file) x = with_data x (set_field (item_data x) "endpoint_transportfile" file)
    stored _ x = x

    -- modify_connection_resource with what was built, whose result is ignored; an exception leaves it.
    modify_with :
        String → Expected Web → Model L nmos → Model L nmos × Expected (Expected (Unit {0}))
    modify_with id thrown m = (m, thrown)
    modify_with id undefined m = (m, undefined)
    modify_with id (ok file) m =
        attempt (modify_resource_after L nmos of_connection id (stored (ok file)) m)
    modify_with id (unexpected e) m =
        attempt (modify_resource_after L nmos of_connection id (stored (unexpected e)) m)

    -- A connection that is not found leaves nothing to build.
    built : Expected (SdpInfo L) → Model L nmos → Item → Option Item → Expected Web
    built sdp_info m sender none = unexpected (other "Resource not found")
    built sdp_info m sender (some connection) =
        build_transport_file m.node_resources sdp_info sender connection

    unfoldable pub update_transport_file :
        (String → Expected (SdpInfo L)) → String → Action (Model L nmos) (Unit {0})
    unfolding modify_with built
    update_transport_file sdp_info sender_id m =
        proceed (m, find_resource_after L nmos of_node sender_id m)
          (λ sender m.
            proceed
              (modify_with sender_id
                (built (sdp_info (item_id sender)) m sender
                  (find_resource m.connection_resources sender_id))
                m)
              (λ ignored m. (m, ok tt)))
