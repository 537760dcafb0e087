-- ===== src/Node/TransportFile/Built.antt =====
-- Which transport file a sender has, told apart from the code that builds it.
use nmos_sender_receiver_fra.Prelude.{ℕ, String, ◌≡◌, refl, true, false, Option, none, some, ltb}
use nmos_sender_receiver_fra.Expected.{Error, Expected, other, ok, unexpected}
use nmos_sender_receiver_fra.Libraries.{Libraries}
use nmos_sender_receiver_fra.Configuration.{video, audio, ancillary, mux, unset}
use nmos_sender_receiver_fra.Context.Resource.{SdpInfo}
use nmos_sender_receiver_fra.Node.Api.{Nmos}
use nmos_sender_receiver_fra.Node.TransportFile.{
  Sessions, self_id, both, source_or, parameters_for, session_file, build_transport_file,
}

module _ (L : Libraries) (nmos : Nmos L) (S : Sessions L nmos) where
  open L use {Web, web_null}
  open nmos use {Item, Store, item_id, item_data}
  open S use {
    staged_master_enable, text_at, find_self, find_node, find_flow, find_source, format, channels,
    active_params, SdpParameters, video_parameters, audio_parameters, data_parameters,
    mux_parameters, session_text, terminated, transportfile,
  }

  -- The parameters of an SDP file for a node, a source, a flow and a sender, by the flow's format.
  pub data IsMade (node source flow sender : Web) (payload_type : ℕ) (p : SdpParameters)
      : Type 0 where
    of_video :
        format flow ≡ ok video
        → video_parameters node source flow sender payload_type ≡ ok p
        → IsMade node source flow sender payload_type p
    of_audio :
        (n : ℕ)
        → format flow ≡ ok audio
        → channels source ≡ ok n
        → audio_parameters node source flow sender payload_type (ltb 8 n) ≡ ok p
        → IsMade node source flow sender payload_type p
    of_data :
        format flow ≡ ok ancillary
        → data_parameters node source flow sender payload_type ≡ ok p
        → IsMade node source flow sender payload_type p
    of_mux :
        format flow ≡ ok mux
        → mux_parameters node source flow sender payload_type ≡ ok p
        → IsMade node source flow sender payload_type p

  -- The node itself, and the flow that the sender names.
  pub record Names (sender : Item) (resources : Store) (self : Item) (flow_id : String)
      : Type 0 where
    pub self_lem : find_self resources ≡ some self
    pub flow_id_lem : text_at (item_data sender) "flow_id" ≡ ok flow_id

  -- The node, the flow, and the source that the flow names.
  pub record Finds (resources : Store) (self : Item) (flow_id source_id : String) (node flow : Item)
      : Type 0 where
    pub node_lem : find_node resources (item_id self) ≡ some node
    pub flow_lem : find_flow resources flow_id ≡ some flow
    pub source_id_lem : text_at (item_data flow) "source_id" ≡ ok source_id

  -- The file, or none where building it fails: null for a sender that is not enabled, and else the text
  -- of the parameters of its flow and its transport parameters.
  pub data IsBuilt (resources : Store) (info : Expected (SdpInfo L)) (sender connection : Item)
      : Option Web → Type 0 where
    disabled :
        staged_master_enable (item_data connection) ≡ ok false
        → IsBuilt resources info sender connection (some web_null)
    not_answered :
        (e : Error)
        → staged_master_enable (item_data connection) ≡ ok true
        → info ≡ unexpected e
        → IsBuilt resources info sender connection none
    no_node :
        {i : SdpInfo L} {self : Item} {flow_id : String}
        → staged_master_enable (item_data connection) ≡ ok true
        → info ≡ ok i
        → Names sender resources self flow_id
        → find_node resources (item_id self) ≡ none
        → IsBuilt resources info sender connection none
    no_flow :
        {i : SdpInfo L} {self : Item} {flow_id : String}
        → staged_master_enable (item_data connection) ≡ ok true
        → info ≡ ok i
        → Names sender resources self flow_id
        → find_flow resources flow_id ≡ none
        → IsBuilt resources info sender connection none
    no_source :
        {i : SdpInfo L} {self node flow : Item} {flow_id source_id : String}
        → staged_master_enable (item_data connection) ≡ ok true
        → info ≡ ok i
        → Names sender resources self flow_id
        → Finds resources self flow_id source_id node flow
        → find_source resources source_id ≡ none
        → IsBuilt resources info sender connection none
    no_format :
        {i : SdpInfo L} {self node flow source : Item} {flow_id source_id : String}
        → staged_master_enable (item_data connection) ≡ ok true
        → info ≡ ok i
        → Names sender resources self flow_id
        → Finds resources self flow_id source_id node flow
        → find_source resources source_id ≡ some source
        → format (item_data flow) ≡ ok unset
        → IsBuilt resources info sender connection none
    described :
        {i : SdpInfo L} {self node flow source : Item} {flow_id source_id txt : String}
        {p : SdpParameters} {params : Web}
        → staged_master_enable (item_data connection) ≡ ok true
        → info ≡ ok i
        → Names sender resources self flow_id
        → Finds resources self flow_id source_id node flow
        → find_source resources source_id ≡ some source
        → IsMade
            (item_data node)
            (item_data source)
            (item_data flow)
            (item_data sender)
            i.payload_type
            p
        → active_params (item_data connection) ≡ ok params
        → session_text p params ≡ ok txt
        → IsBuilt resources info sender connection (some (transportfile (terminated txt)))

  -- What build_transport_file returns then.
  abbrev pub Gives : Option Web → Expected Web → Type 0
  Gives (some file) r = r ≡ ok file
  Gives none r = (e : Error) × (r ≡ unexpected e)

  both-no_flow : (o : Option Item) → (e : Error) × (both L nmos S o none ≡ unexpected e)
  unfolding both
  both-no_flow none = (_, refl)
  both-no_flow (some node) = (_, refl)

  pub build_transport_file-Gives :
      {resources : Store} {info : Expected (SdpInfo L)} {sender connection : Item} {o : Option Web}
      → IsBuilt resources info sender connection o
      → Gives o (build_transport_file L nmos S resources info sender connection)
  unfolding build_transport_file session_file self_id both source_or parameters_for
  build_transport_file-Gives (disabled d) = rw d refl
  build_transport_file-Gives (not_answered e m i) = (e, rw (m, i) refl)
  build_transport_file-Gives (no_node m i n h) =
      (other "matching IS-04 node, flow not found", rw (m, i, n.self_lem, n.flow_id_lem, h) refl)
  build_transport_file-Gives {resources} (no_flow {self = self} m i n f) =
      let (e, h) = both-no_flow (find_node resources (item_id self)) in
      (e, rw (m, i, n.self_lem, n.flow_id_lem, f, h) refl)
  build_transport_file-Gives (no_source m i n f s) = (
    other "matching IS-04 source not found",
    rw (m, i, n.self_lem, n.flow_id_lem, f.node_lem, f.flow_lem, f.source_id_lem, s) refl,
  )
  build_transport_file-Gives (no_format m i n f s k) = (
    other "unexpected flow format",
    rw (m, i, n.self_lem, n.flow_id_lem, f.node_lem, f.flow_lem, f.source_id_lem, s, k) refl,
  )
  build_transport_file-Gives (described m i n f s (of_video k p) a t) =
      rw (m, i, n.self_lem, n.flow_id_lem, f.node_lem, f.flow_lem, f.source_id_lem, s, k, p, a, t)
        refl
  build_transport_file-Gives (described m i n f s (of_audio c k h p) a t) =
      rw
        (m, i, n.self_lem, n.flow_id_lem, f.node_lem, f.flow_lem, f.source_id_lem, s, k, h, p, a, t)
        refl
  build_transport_file-Gives (described m i n f s (of_data k p) a t) =
      rw (m, i, n.self_lem, n.flow_id_lem, f.node_lem, f.flow_lem, f.source_id_lem, s, k, p, a, t)
        refl
  build_transport_file-Gives (described m i n f s (of_mux k p) a t) =
      rw (m, i, n.self_lem, n.flow_id_lem, f.node_lem, f.flow_lem, f.source_id_lem, s, k, p, a, t)
        refl
