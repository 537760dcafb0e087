-- ===== src/Node/Transport/Params.antt =====
-- What the staged parameters of a connection are.
use nmos_sender_receiver_fra.Prelude.{
  ℕ, String, ◌≡◌, refl, Bool, true, false, Option, none, some, str_eq, ◌==◌, if◌then◌else◌,
}
use nmos_sender_receiver_fra.Libraries.{Libraries}
use nmos_sender_receiver_fra.Configuration.{NetworkLeg}
use nmos_sender_receiver_fra.Node.Transport.{
  WebValues, set_or_previous_or_auto, mapped, set_param, set_transport_params,
}

module _ (L : Libraries) where
  open L use {Web}

  -- The documented behaviour of members and items that are assigned.
  pub record Assigns (W : WebValues L) : Type 0 where
    pub member_set :
        (o : Web) (key other : String) (v : Web)
        → W.member (W.set_member o key v) other ≡ (if str_eq key other then v else W.member o other)
    pub item_set :
        (o : Web) (i j : ℕ) (v : Web)
        → W.item (W.set_item o i v) j ≡ (if i == j then v else W.item o j)

  module _ (W : WebValues L) (w : Assigns W) where
    open W use {is_null, string, number, boolean, member, set_member, item, set_item}

    -- What a leg says of a parameter: the value that it gives, else the previous one, else `auto`.
    abbrev pub chosen : {A : Type 0} → (A → Web) → Option A → Web → Web
    chosen f (some a) previous = f a
    chosen f none previous = if is_null previous then string "auto" else previous

    -- The parameters of a leg, by their names.
    abbrev pub param_of : NetworkLeg → Bool → Web → String → Web
    param_of leg true params key =
        if str_eq "multicast_ip" key
        then chosen string leg.destination_ip (member params "multicast_ip")
        else if str_eq "interface_ip" key
        then chosen string leg.interface_ip (member params "interface_ip")
        else if str_eq "destination_port" key
        then chosen number leg.destination_port (member params "destination_port")
        else if str_eq "source_ip" key
        then chosen string leg.source_ip (member params "source_ip")
        else if str_eq "rtp_enabled" key
        then boolean leg.rtp_enabled
        else member params key
    param_of leg false params key =
        if str_eq "source_port" key
        then chosen number leg.source_port (member params "source_port")
        else if str_eq "destination_ip" key
        then chosen string leg.destination_ip (member params "destination_ip")
        else if str_eq "destination_port" key
        then chosen number leg.destination_port (member params "destination_port")
        else if str_eq "source_ip" key
        then chosen string leg.source_ip (member params "source_ip")
        else if str_eq "rtp_enabled" key
        then boolean leg.rtp_enabled
        else member params key

    set-chosen :
        {A : Type 0} (f : A → Web) (o : Option A) (previous : Web)
        → set_or_previous_or_auto L W previous (mapped L W o f) ≡ chosen f o previous
    unfolding set_or_previous_or_auto mapped
    set-chosen f none previous = refl
    set-chosen f (some a) previous = refl

    -- Each parameter of a leg is what the leg gives, else what it was, else `auto`; what is no parameter
    -- of it stays.
    pub set_transport_params-member :
        (leg : NetworkLeg) (is_receiver : Bool) (params : Web) (key : String)
        → member (set_transport_params L W leg params is_receiver) key
          ≡ param_of leg is_receiver params key
    unfolding set_transport_params set_param
    set_transport_params-member leg true params key = simp (w.member_set, set-chosen)
    set_transport_params-member leg false params key = simp (w.member_set, set-chosen)
