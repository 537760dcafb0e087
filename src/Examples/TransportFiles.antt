-- ===== src/Examples/TransportFiles.antt =====
-- The transport file of a sender of a concrete node.
use nmos_sender_receiver_fra.Prelude.{
  String, ◌≡◌, refl, Bool, true, false, none, some, [], ◌∷◌, str_eq, if◌then◌else◌,
}
use nmos_sender_receiver_fra.Expected.{Expected, ok, thrown}
use nmos_sender_receiver_fra.Configuration.{video}
use nmos_sender_receiver_fra.Context.Resource.{SdpInfo}
use nmos_sender_receiver_fra.Node.Controller.{Model}
use nmos_sender_receiver_fra.Node.TransportFile.{Sessions, update_transport_file}
use nmos_sender_receiver_fra.Node.TransportFile.Updated.{
  SetsOne, IsUpdated, update_transport_file-IsUpdated,
}
use nmos_sender_receiver_fra.Node.TransportFile.Built.{IsBuilt, described, of_video}
use nmos_sender_receiver_fra.Examples.Connections.{
  Tree, null, text, flag, member, of_members, trees, web, resources, assigns, modifies,
}

abbrev as_bool : Tree → Expected Bool
as_bool (flag b) = ok b
as_bool _ = thrown

abbrev as_text : Tree → Expected String
as_text (text t) = ok t
as_text _ = thrown

abbrev sessions : Sessions trees resources
sessions = record {
  staged_master_enable = λ d. as_bool (member (member d "endpoint_staged") "master_enable");
  text_at = λ d key. as_text (member d key);
  find_self = λ s. some null;
  find_node = λ s id. some null;
  find_flow = λ s id. s id;
  find_source = λ s id. s id;
  format = λ d. ok video;
  channels = λ d. ok 2;
  active_params = λ d. ok (member (member d "endpoint_active") "transport_params");
  SdpParameters = String;
  video_parameters = λ node source flow sender pt. ok "m=video 5004 RTP/AVP 96";
  audio_parameters = λ node source flow sender pt short. ok "m=audio 5004 RTP/AVP 97";
  data_parameters = λ node source flow sender pt. thrown;
  mux_parameters = λ node source flow sender pt. thrown;
  session_text = λ parameters params. ok parameters;
  terminated = λ t. t;
  transportfile = text;
}

abbrev camera : Tree
camera = of_members (("flow_id", text "flow") ∷ [])

abbrev connection : Tree
connection = of_members (("endpoint_staged", of_members (("master_enable", flag true) ∷ [])) ∷ [])

-- A node with a sender, its flow and its source.
abbrev studio : Model trees resources
studio = record {
  node_resources = λ id.
      if str_eq "camera" id
      then some camera
      else some (of_members (("source_id", text "source") ∷ []));
  connection_resources = λ id. if str_eq "camera" id then some connection else none;
  shutdown = false;
}

abbrev sdp_info : String → Expected (SdpInfo trees)
sdp_info id = ok (record { payload_type = 96; packet_time = 1 })

abbrev flow : Tree
flow = of_members (("source_id", text "source") ∷ [])

is_built :
    IsBuilt trees resources sessions studio.node_resources
      (sdp_info "")
      camera
      connection
      (some (text "m=video 5004 RTP/AVP 96"))
is_built =
    described refl refl (record { self_lem = refl; flow_id_lem = refl })
      (record { node_lem = refl; flow_lem = refl; source_id_lem = refl }) refl (of_video refl refl)
      refl refl

sets : SetsOne trees resources sessions web assigns modifies
sets = record { set_field = λ o key other v. refl; versioned = λ x key h. refl }

update_transport_file-IsUpdated_example :
    (t : Model trees resources) × (update_transport_file trees resources sessions sdp_info "camera"
        studio
      ≡ (t, ok tt))
    × IsUpdated trees resources sessions web assigns modifies "camera" connection
        (some (text "m=video 5004 RTP/AVP 96"))
        studio
        t
update_transport_file-IsUpdated_example =
    update_transport_file-IsUpdated trees resources sessions web assigns modifies sets sdp_info
      "camera" studio camera connection (some (text "m=video 5004 RTP/AVP 96")) refl refl refl
      is_built
