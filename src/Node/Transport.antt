-- ===== src/Node/Transport.antt =====
-- nmos_controller.cpp: the transport parameters of connections. The values of cpprest are not part of
-- the repository: `WebValues` is what the code uses of them.
pub mod Params
pub mod Staged
use nmos_sender_receiver_fra.Prelude.{
  ℕ, String, Bool, true, false, Option, none, some, List, [], ◌∷◌, ◌++◌, if◌then◌else◌,
}
use nmos_sender_receiver_fra.Prelude.Int.{ℤ}
use nmos_sender_receiver_fra.Libraries.{Libraries}
use nmos_sender_receiver_fra.Configuration.{NetworkLeg, Network, NmosReceiver, NmosSender}
use nmos_sender_receiver_fra.Node.Api.{Nmos}

module _ (L : Libraries) where
  open L use {Web}

  -- web::json::value: its constructors, is_null, v[key] and v[i], and their assignments.
  pub record WebValues : Type 0 where
    pub is_null : Web → Bool
    pub string : String → Web
    pub number : ℤ → Web
    pub boolean : Bool → Web
    pub array : List Web → Web
    pub object : List (String × Web) → Web
    pub member : Web → String → Web
    pub set_member : Web → String → Web → Web
    pub item : Web → ℕ → Web
    pub set_item : Web → ℕ → Web → Web

  module _ (W : WebValues) where
    open W use {is_null, string, number, boolean, array, object, member, set_member, item, set_item}

    -- The names of a network's interfaces.
    names_of : Option String → List String
    names_of none = []
    names_of (some name) = name ∷ []

    leg_names : Option NetworkLeg → List String
    unfolding names_of
    leg_names none = []
    leg_names (some leg) = names_of leg.interface_name

    unfoldable pub get_interface_names_from_network : Network → List String
    unfolding names_of leg_names
    get_interface_names_from_network net =
        names_of net.primary.interface_name ++ leg_names net.secondary

    unfoldable pub set_or_previous_or_auto : Web → Option Web → Web
    set_or_previous_or_auto param (some v) = v
    set_or_previous_or_auto param none = if is_null param then string "auto" else param

    -- The template `map`.
    mapped : {A : Type 0} → Option A → (A → Web) → Option Web
    mapped none f = none
    mapped (some v) f = some (f v)

    set_param : String → Option Web → Web → Web
    set_param key v params = set_member params key (set_or_previous_or_auto (member params key) v)

    unfoldable pub set_transport_params : NetworkLeg → Web → Bool → Web
    unfolding mapped set_param
    set_transport_params leg params is_receiver =
        let common = set_param "destination_port" (mapped leg.destination_port number) (
          set_param "source_ip" (mapped leg.source_ip string)
            (set_member params "rtp_enabled" (boolean leg.rtp_enabled))) in
        if is_receiver
        then set_param "multicast_ip" (mapped leg.destination_ip string)
            (set_param "interface_ip" (mapped leg.interface_ip string) common)
        else set_param "source_port" (mapped leg.source_port number)
            (set_param "destination_ip" (mapped leg.destination_ip string) common)

    -- A change of staged[transport_params][i].
    at_leg : ℕ → (Web → Web) → Web → Web
    at_leg i f staged =
        let params = member staged "transport_params" in
        set_member staged "transport_params" (set_item params i (f (item params i)))

    set_secondary : Option NetworkLeg → Bool → Web → Web
    unfolding at_leg
    set_secondary none is_receiver staged = staged
    set_secondary (some leg) is_receiver staged =
        at_leg 1 (λ params. set_transport_params leg params is_receiver) staged

    -- Both legs, and the activation at the version `version`.
    set_legs : Web → Network → Bool → Web → Web
    unfolding at_leg set_secondary
    set_legs version network is_receiver staged =
        set_member
          (set_secondary network.secondary is_receiver
            (at_leg 0 (λ params. set_transport_params network.primary params is_receiver) staged))
          "activation"
          (object (
            ("mode", string "activate_scheduled_relative")
            ∷ ("requested_time", string "0:0")
            ∷ ("activation_time", version)
            ∷ []))

    set_sender_id : Option String → Web → Web
    set_sender_id none staged = staged
    set_sender_id (some id) staged = set_member staged "sender_id" (string id)

    set_transport_file : Option String → Web → Web
    set_transport_file none staged = staged
    set_transport_file (some sdp) staged =
        set_member staged "transport_file" (
          set_member (set_member (object []) "type" (string "application/sdp")) "data" (string sdp))

    unfoldable pub update_connection_receiver_staged_params : Web → NmosReceiver → Web → Web
    unfolding set_legs set_sender_id set_transport_file
    update_connection_receiver_staged_params version config staged =
        set_legs version config.network true (
          set_member (set_transport_file config.sdp_data (set_sender_id config.sender_id staged))
            "master_enable" (boolean config.master_enable))

    -- The constraint of a leg's address to one value.
    constrain : ℕ → String → Option String → Web → Web
    constrain i key none content = content
    constrain i key (some ip) content =
        let constraints = member content "endpoint_constraints" in
        set_member content "endpoint_constraints" (
          set_item constraints i
            (set_member (item constraints i) key (object (("enum", array (string ip ∷ [])) ∷ []))))

    secondary_address : (NetworkLeg → Option String) → Option NetworkLeg → Option String
    secondary_address address none = none
    secondary_address address (some leg) = address leg

    pub present : Option NetworkLeg → Bool
    present none = false
    present (some leg) = true

    constrain_legs : String → (NetworkLeg → Option String) → Network → Web → Web
    unfolding constrain secondary_address
    constrain_legs key address network content =
        constrain 1 key (secondary_address address network.secondary)
          (constrain 0 key (address network.primary) content)

    -- The change of connection.content[endpoint_staged].
    at_staged : (Web → Web) → Web → Web
    at_staged f content =
        set_member content "endpoint_staged" (f (member content "endpoint_staged"))

    module _ (nmos : Nmos L) where
      open nmos use {Item, item_data, with_data}

      -- `make` is nmos::make_connection_rtp_receiver.
      unfoldable pub make_connection_receiver : Web → (String → Bool → Item) → NmosReceiver → Item
      unfolding constrain_legs present at_staged
      make_connection_receiver version make config =
          let made = make config.id (present config.network.secondary) in
          with_data made (
            at_staged (update_connection_receiver_staged_params version config) (
              constrain_legs "interface_ip" (λ leg. leg.interface_ip) config.network
                (item_data made)))

      -- `make` is nmos::make_connection_rtp_sender.
      unfoldable pub make_connection_sender : Web → (String → Bool → Item) → NmosSender L → Item
      unfolding constrain_legs present at_staged set_legs
      make_connection_sender version make config =
          let made = make config.id (present config.network.secondary) in
          with_data made (
            at_staged
              (λ staged.
                set_legs version config.network false
                  (set_member staged "master_enable" (boolean config.master_enable)))
              (constrain_legs "source_ip" (λ leg. leg.source_ip) config.network (item_data made)))
