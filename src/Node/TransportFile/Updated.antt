-- ===== src/Node/TransportFile/Updated.antt =====
-- A transport file after its update.
use nmos_sender_receiver_fra.Prelude.{
  String, ◌≡◌, refl, ap, ◌∙◌, false, Option, none, some, str_eq, if◌then◌else◌, if_false,
}
use nmos_sender_receiver_fra.Expected.{
  Safe, is_ok, is_error, MaybeOk, Expected, ok, unexpected, thrown, undefined,
}
use nmos_sender_receiver_fra.Libraries.{Libraries}
use nmos_sender_receiver_fra.Context.Resource.{SdpInfo}
use nmos_sender_receiver_fra.Node.Action.{proceed, attempt}
use nmos_sender_receiver_fra.Node.Api.{Nmos}
use nmos_sender_receiver_fra.Node.Controller.{Model, part, found, find_resource_after}
use nmos_sender_receiver_fra.Node.Transport.{WebValues}
use nmos_sender_receiver_fra.Node.Transport.Params
use nmos_sender_receiver_fra.Node.Update.Restaged.{Modifies, changes}
use nmos_sender_receiver_fra.Node.TransportFile.Built.{IsBuilt, Gives, build_transport_file-Gives}
use nmos_sender_receiver_fra.Node.TransportFile.{
  Sessions, stored, modify_with, built, build_transport_file, update_transport_file,
}

module _ (L : Libraries) (nmos : Nmos L) (S : Sessions L nmos) where
  open nmos use {Item, find_resource, modify_resource, versioned}

  -- The node's resources as they were, and the connection with what was built.
  abbrev after : String → Expected L.Web → Model L nmos → Model L nmos
  after id r m = record m {
    connection_resources =
        (modify_resource m.connection_resources id (λ y. versioned (stored L nmos S r y))).0;
  }

  module _ (W : WebValues L) (w : Params.Assigns L W) (law : Modifies L nmos W) where
    modify_with-after :
        (id : String) (r : Expected L.Web) (m : Model L nmos) (x : Item)
        → m.shutdown ≡ false
        → find_resource m.connection_resources id ≡ some x
        → Safe (λ _. Unit {0}) r
        → ◌≡◌ {A = Model L nmos × MaybeOk}
            (proceed (modify_with L nmos S id r m) (λ ignored m. (m, ok tt)))
            (after id r m, ok tt)
    unfolding modify_with
    modify_with-after id (ok file) m x up h s =
        ap (λ r. proceed (attempt r) (λ ignored m. (m, ok tt)))
          (changes L nmos W w law id (stored L nmos S (ok file)) m x up h)
    modify_with-after id (unexpected e) m x up h s =
        ap (λ r. proceed (attempt r) (λ ignored m. (m, ok tt)))
          (changes L nmos W w law id (stored L nmos S (unexpected e)) m x up h)
    modify_with-after id thrown m x up h s = elim s [ ]
    modify_with-after id undefined m x up h s = elim s [ ]

    update_stores :
        (sdp_info : String → Expected (SdpInfo L)) (id : String) (m : Model L nmos)
        (sender connection : Item) (r : Expected L.Web)
        → m.shutdown ≡ false
        → find_resource m.node_resources id ≡ some sender
        → find_resource m.connection_resources id ≡ some connection
        → build_transport_file L nmos S m.node_resources
            (sdp_info (nmos.item_id sender))
            sender
            connection
          ≡ r
        → Safe (λ _. Unit {0}) r
        → update_transport_file L nmos S sdp_info id m ≡ (after id r m, ok tt)
    unfolding update_transport_file find_resource_after part found built
    update_stores sdp_info id m sender connection r up hs hc e safe =
        ap
          (λ y.
            proceed (m, y)
              (λ sender m.
                proceed
                  (modify_with L nmos S id
                    (built L nmos S (sdp_info (nmos.item_id sender)) m sender
                      (find_resource m.connection_resources id))
                    m)
                  (λ ignored m. (m, ok tt))))
          (if_false _ _ up ∙ ap (found L nmos) hs)
        ∙ ap
            (λ c.
              proceed
                (modify_with L nmos S id
                  (built L nmos S (sdp_info (nmos.item_id sender)) m sender c) m)
                (λ ignored m. (m, ok tt)))
            hc
        ∙ ap (λ x. proceed (modify_with L nmos S id x m) (λ ignored m. (m, ok tt))) e
        ∙ modify_with-after id r m connection up hc safe

    -- What is documented of assignments to the data, and of a new version: they change one member.
    pub record SetsOne : Type 0 where
      pub set_field :
          (o : L.Web) (key other : String) (v : L.Web)
          → W.member (nmos.set_field o key v) other
            ≡ (if str_eq key other then v else W.member o other)
      pub versioned :
          (x : Item) (key : String)
          → str_eq "version" key ≡ false
          → W.member (nmos.item_data (nmos.versioned x)) key ≡ W.member (nmos.item_data x) key

    -- The member of a connection once there is a new file, or none.
    abbrev pub member_after : Option L.Web → Item → String → L.Web
    member_after (some file) x key =
        if str_eq "endpoint_transportfile" key then file else W.member (nmos.item_data x) key
    member_after none x key = W.member (nmos.item_data x) key

    -- The model after an update: the sender's connection has the file, if there is one, and otherwise
    -- what it had, but for its version; the node's resources are as they were.
    pub record IsUpdated (id : String) (connection : Item) (o : Option L.Web) (m t : Model L nmos)
        : Type 0 where
      pub new : Item
      pub found : find_resource t.connection_resources id ≡ some new
      pub members :
          (key : String)
          → str_eq "version" key ≡ false
          → W.member (nmos.item_data new) key ≡ member_after o connection key
      pub same_node : t.node_resources ≡ m.node_resources

    module _ (sets : SetsOne) where
      stored-members :
          (file : L.Web) (x : Item) (key : String)
          → str_eq "version" key ≡ false
          → W.member (nmos.item_data (versioned (stored L nmos S (ok file) x))) key
            ≡ member_after (some file) x key
      stored-members file x key v =
          sets.versioned _ key v
          ∙ ap (λ d. W.member d key) (law.kept x _)
          ∙ sets.set_field (nmos.item_data x) "endpoint_transportfile" key file

      Gives-IsUpdated :
          (sdp_info : String → Expected (SdpInfo L)) (id : String) (m : Model L nmos)
          (sender connection : Item) (o : Option L.Web)
          → m.shutdown ≡ false
          → find_resource m.node_resources id ≡ some sender
          → find_resource m.connection_resources id ≡ some connection
          → Gives L nmos S o (
              build_transport_file L nmos S m.node_resources
                (sdp_info (nmos.item_id sender))
                sender
                connection)
          → (t : Model L nmos) × (update_transport_file L nmos S sdp_info id m ≡ (t, ok tt))
            × IsUpdated id connection o m t
      Gives-IsUpdated sdp_info id m sender connection (some file) up hs hc g = (
        after id (ok file) m,
        update_stores sdp_info id m sender connection (ok file) up hs hc g (is_ok tt),
        record {
          new = versioned (stored L nmos S (ok file) connection);
          found =
              law.modified m.connection_resources id (λ y. versioned (stored L nmos S (ok file) y))
                connection hc;
          members = stored-members file connection;
          same_node = refl;
        },
      )
      Gives-IsUpdated sdp_info id m sender connection none up hs hc (e, g) = (
        after id (unexpected e) m,
        update_stores sdp_info id m sender connection (unexpected e) up hs hc g is_error,
        record {
          new = versioned connection;
          found =
              law.modified m.connection_resources id
                (λ y. versioned (stored L nmos S (unexpected e) y)) connection hc;
          members = sets.versioned connection;
          same_node = refl;
        },
      )

      -- Where nmos-cpp modifies what it finds, and an assignment and a new version change one member: in
      -- a running node that has the sender and its connection, the update of the transport file
      -- succeeds. The connection then has the sender's file, null if it is not enabled, and keeps its
      -- other members but the version; where building the file fails, it keeps its file too. The node's
      -- resources stay as they were.
      pub update_transport_file-IsUpdated :
          (sdp_info : String → Expected (SdpInfo L)) (id : String) (m : Model L nmos)
          (sender connection : Item) (o : Option L.Web)
          → m.shutdown ≡ false
          → find_resource m.node_resources id ≡ some sender
          → find_resource m.connection_resources id ≡ some connection
          → IsBuilt L nmos S m.node_resources (sdp_info (nmos.item_id sender)) sender connection o
          → (t : Model L nmos) × (update_transport_file L nmos S sdp_info id m ≡ (t, ok tt))
            × IsUpdated id connection o m t
      update_transport_file-IsUpdated sdp_info id m sender connection o up hs hc b =
          Gives-IsUpdated sdp_info id m sender connection o up hs hc
            (build_transport_file-Gives L nmos S b)
