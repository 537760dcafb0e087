-- ===== src/Node/Transport/Staged.antt =====
-- What a new connection of a sender or a receiver stages.
use nmos_sender_receiver_fra.Prelude.{
  ℕ, String, ◌≡◌, refl, sym, ap, subst, ◌∙◌, Bool, true, false, Option, none, some,
}
use nmos_sender_receiver_fra.Libraries.{Libraries}
use nmos_sender_receiver_fra.Configuration.{NetworkLeg, Network, NmosReceiver, NmosSender}
use nmos_sender_receiver_fra.Node.Api.{Nmos}
use nmos_sender_receiver_fra.Node.Transport.{
  WebValues, set_transport_params, at_leg, set_secondary, set_legs, set_sender_id,
  set_transport_file, constrain, constrain_legs, at_staged, present, secondary_address,
  update_connection_receiver_staged_params, make_connection_receiver, make_connection_sender,
}
use nmos_sender_receiver_fra.Node.Transport.Params.{Assigns, param_of, set_transport_params-member}

module _ (L : Libraries) (W : WebValues L) (w : Assigns L W) where
  open L use {Web}
  open W use {boolean, member, item}

  abbrev LegIs : Option NetworkLeg → Bool → Web → Web → Type 0
  LegIs none is_receiver before after = Unit
  LegIs (some leg) is_receiver before after =
      (key : String) → member after key ≡ param_of L W w leg is_receiver before key

  -- The parameters of the legs of a network, from those that were staged before.
  abbrev LegsAre : Network → Bool → Web → Web → Type 0
  LegsAre network is_receiver before after =
      LegIs (some network.primary) is_receiver (item before 0) (item after 0)
      × LegIs network.secondary is_receiver (item before 1) (item after 1)

  -- The staged endpoint has the configuration's flag and legs.
  pub record IsStaged (master_enable : Bool) (network : Network) (is_receiver : Bool)
      (before after : Web) : Type 0 where
    pub enabled : member after "master_enable" ≡ boolean master_enable
    pub legs :
        LegsAre network is_receiver
          (member before "transport_params")
          (member after "transport_params")

  set_legs-first :
      (version : Web) (p : NetworkLeg) (o : Option NetworkLeg) (r : Bool) (staged : Web)
      → item
          (member
            (set_legs L W version (record { primary = p; secondary = o }) r staged)
            "transport_params")
          0
        ≡ set_transport_params L W p (item (member staged "transport_params") 0) r
  unfolding set_legs set_secondary at_leg
  set_legs-first version p none r staged = simp (w.member_set, w.item_set)
  set_legs-first version p (some leg) r staged = simp (w.member_set, w.item_set)

  set_legs-second :
      (version : Web) (p leg : NetworkLeg) (r : Bool) (staged : Web)
      → item
          (member
            (set_legs L W version (record { primary = p; secondary = some leg }) r staged)
            "transport_params")
          1
        ≡ set_transport_params L W leg (item (member staged "transport_params") 1) r
  unfolding set_legs set_secondary at_leg
  set_legs-second version p leg r staged = simp (w.member_set, w.item_set)

  set_legs-enabled :
      (version : Web) (p : NetworkLeg) (o : Option NetworkLeg) (r : Bool) (staged : Web)
      → member
          (set_legs L W version (record { primary = p; secondary = o }) r staged)
          "master_enable"
        ≡ member staged "master_enable"
  unfolding set_legs set_secondary at_leg
  set_legs-enabled version p none r staged = simp (w.member_set)
  set_legs-enabled version p (some leg) r staged = simp (w.member_set)

  second-LegIs :
      (version : Web) (p : NetworkLeg) (o : Option NetworkLeg) (r : Bool) (staged before : Web)
      → member staged "transport_params" ≡ before
      → LegIs o r (item before 1) (
          item
            (member
              (set_legs L W version (record { primary = p; secondary = o }) r staged)
              "transport_params")
            1)
  second-LegIs version p none r staged before e = tt
  second-LegIs version p (some q) r staged before e = λ key.
      ap (λ x. member x key) (set_legs-second version p q r staged)
      ∙ set_transport_params-member L W w q r (item (member staged "transport_params") 1) key
      ∙ ap (λ x. param_of L W w q r (item x 1) key) e

  set_legs-IsStaged :
      (version : Web) (enable : Bool) (network : Network) (r : Bool) (before staged : Web)
      → member staged "master_enable" ≡ boolean enable
      → member staged "transport_params" ≡ member before "transport_params"
      → IsStaged enable network r before (set_legs L W version network r staged)
  set_legs-IsStaged version enable network r before staged m p = record {
    enabled = set_legs-enabled version network.primary network.secondary r staged ∙ m;
    legs = (
      λ key.
          ap (λ x. member x key) (set_legs-first version network.primary network.secondary r staged)
          ∙ set_transport_params-member L W w network.primary r
              (item (member staged "transport_params") 0) key
          ∙ ap (λ x. param_of L W w network.primary r (item x 0) key) p,
      second-LegIs version network.primary network.secondary r staged _ p,
    );
  }

  constrain-staged :
      (i : ℕ) (key : String) (o : Option String) (content : Web)
      → member (constrain L W i key o content) "endpoint_staged" ≡ member content "endpoint_staged"
  unfolding constrain
  constrain-staged i key none content = refl
  constrain-staged i key (some ip) content = simp (w.member_set)

  at_staged-member :
      (f : Web → Web) (content : Web)
      → member (at_staged L W f content) "endpoint_staged" ≡ f (member content "endpoint_staged")
  unfolding at_staged
  at_staged-member f content = simp (w.member_set)

  set_sender_id-params :
      (o : Option String) (staged : Web)
      → member (set_sender_id L W o staged) "transport_params" ≡ member staged "transport_params"
  unfolding set_sender_id
  set_sender_id-params none staged = refl
  set_sender_id-params (some id) staged = simp (w.member_set)

  set_transport_file-params :
      (o : Option String) (staged : Web)
      → member (set_transport_file L W o staged) "transport_params"
        ≡ member staged "transport_params"
  unfolding set_transport_file
  set_transport_file-params none staged = refl
  set_transport_file-params (some sdp) staged = simp (w.member_set)

  pub update-IsStaged :
      (version : Web) (config : NmosReceiver) (before : Web)
      → IsStaged config.master_enable config.network true before
          (update_connection_receiver_staged_params L W version config before)
  unfolding update_connection_receiver_staged_params
  update-IsStaged version config before =
      let staged =
        set_transport_file L W config.sdp_data (set_sender_id L W config.sender_id before) in
      set_legs-IsStaged version config.master_enable config.network true before
        (W.set_member staged "master_enable" (boolean config.master_enable)) (simp (w.member_set))
        (simp (w.member_set, set_transport_file-params, set_sender_id-params))

  module _ (nmos : Nmos L)
      (kept : (x : nmos.Item) (d : Web) → nmos.item_data (nmos.with_data x d) ≡ d) where
    open nmos use {Item, item_data, with_data}

    -- The endpoint that a resource stages.
    abbrev pub endpoint : Item → Web
    endpoint x = member (item_data x) "endpoint_staged"

    built-endpoint :
        (made : Item) (f : Web → Web) (key : String) (address : NetworkLeg → Option String)
        (network : Network)
        → endpoint (
            with_data made
              (at_staged L W f (constrain_legs L W key address network (item_data made))))
          ≡ f (endpoint made)
    unfolding constrain_legs
    built-endpoint made f key address network =
        ap (λ x. member x "endpoint_staged") (kept made _)
        ∙ at_staged-member f _
        ∙ ap f (
            constrain-staged 1 key (secondary_address L W address network.secondary) _
            ∙ constrain-staged 0 key (address network.primary) (item_data made))

    make_connection_sender-IsStaged :
        (version : Web) (make : String → Bool → Item) (config : NmosSender L)
        → IsStaged config.master_enable config.network false
            (endpoint (make config.id (present L W config.network.secondary)))
            (endpoint (make_connection_sender L W nmos version make config))
    unfolding make_connection_sender
    make_connection_sender-IsStaged version make config =
        let before = endpoint (make config.id (present L W config.network.secondary)) in
        subst (IsStaged config.master_enable config.network false before)
          (sym (
            built-endpoint (make config.id (present L W config.network.secondary))
              (λ staged.
                set_legs L W version config.network false
                  (W.set_member staged "master_enable" (boolean config.master_enable)))
              "source_ip" (λ leg. leg.source_ip) config.network))
          (set_legs-IsStaged version config.master_enable config.network false before
            (W.set_member before "master_enable" (boolean config.master_enable))
            (simp (w.member_set)) (simp (w.member_set)))

    make_connection_receiver-IsStaged :
        (version : Web) (make : String → Bool → Item) (config : NmosReceiver)
        → IsStaged config.master_enable config.network true
            (endpoint (make config.id (present L W config.network.secondary)))
            (endpoint (make_connection_receiver L W nmos version make config))
    unfolding make_connection_receiver
    make_connection_receiver-IsStaged version make config =
        let before = endpoint (make config.id (present L W config.network.secondary)) in
        subst (IsStaged config.master_enable config.network true before)
          (sym (
            built-endpoint (make config.id (present L W config.network.secondary))
              (update_connection_receiver_staged_params L W version config) "interface_ip"
              (λ leg. leg.interface_ip) config.network))
          (update-IsStaged version config before)

    -- A new connection of a sender or of a receiver stages the configuration's flag and, in each leg,
    -- each parameter as the configuration gives it, else as nmos-cpp makes it, else `auto`.
    pub make_connections-AreStaged :
        (version : Web) (make : String → Bool → Item) (s : NmosSender L) (r : NmosReceiver)
        → IsStaged s.master_enable s.network false
            (endpoint (make s.id (present L W s.network.secondary)))
            (endpoint (make_connection_sender L W nmos version make s))
          × IsStaged r.master_enable r.network true
              (endpoint (make r.id (present L W r.network.secondary)))
              (endpoint (make_connection_receiver L W nmos version make r))
    make_connections-AreStaged version make s r = (
      make_connection_sender-IsStaged version make s,
      make_connection_receiver-IsStaged version make r,
    )
