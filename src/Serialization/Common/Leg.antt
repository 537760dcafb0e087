-- ===== src/Serialization/Common/Leg.antt =====
-- What is read of a network leg, for every configuration.
use nmos_sender_receiver_fra.Prelude.{
  String, ◌≡◌, refl, sym, ◌∙◌, ◌⊎◌, inl, inr, Bool, true, false, false≢true, Option, none, some,
  if◌then◌else◌, Bool-cases,
}
use nmos_sender_receiver_fra.Expected.{Expected, MaybeOk, ok, undefined}
use nmos_sender_receiver_fra.Libraries.{Libraries}
use nmos_sender_receiver_fra.Json.Api.{Converts}
use nmos_sender_receiver_fra.Json.Access.{
  read_text, read_boolean, read_int, assign_if, assign_if_or_value,
}
use nmos_sender_receiver_fra.Json.Access.Laws.{
  IsSound-read_text, IsSound-read_boolean, IsSound-read_int,
}
use nmos_sender_receiver_fra.Json.Access.Members.{
  or_default, member, assign_if-member, assign_if_or_value-absent, assign_if_or_value-mistyped,
  assign_if_or_value-found, member-absent, member-found,
}
use nmos_sender_receiver_fra.Configuration.{NetworkLeg}
use nmos_sender_receiver_fra.Serialization.Common.{initialised, network_leg_from_json}

module _ (L : Libraries) where
  open L use {json, Json, find_member, is_boolean}

  -- The description of a leg by the members of its configuration.
  abbrev pub leg_of : Json → Bool → NetworkLeg
  leg_of config is_receiver = record {
    rtp_enabled = or_default true (member json (read_boolean json) config "rtp_enabled");
    source_port = if is_receiver then none else member json (read_int json) config "source_port";
    source_ip = member json (read_text json) config "source_address";
    destination_ip =
        if is_receiver
        then member json (read_text json) config "multicast_address"
        else member json (read_text json) config "destination_address";
    destination_port = member json (read_int json) config "destination_port";
    interface_name = member json (read_text json) config "interface_name";
    interface_ip =
        if is_receiver then member json (read_text json) config "interface_address" else none;
  }

  -- The first assignment of `network_leg_from_json`, to a flag that has no value yet.
  abbrev enabling : Json → Expected (Option Bool × MaybeOk)
  enabling config =
      assign_if_or_value json (read_boolean json) some config "rtp_enabled" none (some true)

  module _ (c : Converts json) (config : Json) where
    abbrev flag : Bool
    flag = or_default true (member json (read_boolean json) config "rtp_enabled")

    enabling-cases :
        (o : Option Json)
        → find_member config "rtp_enabled" ≡ o
        → ((e : MaybeOk) × (enabling config ≡ ok (some flag, e)))
          ⊎ ((v : Json) × (o ≡ some v) × (is_boolean v ≡ false))
    enabling-cases none h = inl (
      ok tt,
      rw (
        assign_if_or_value-absent json (read_boolean json) some config "rtp_enabled" none
            (some true) h,
        member-absent json (read_boolean json) config "rtp_enabled" h,
      ),
    )
    enabling-cases (some v) h = elim (Bool-cases (is_boolean v)) [
      | inl b ↦
          let (a, e) = IsSound-read_boolean json c v b in
          inl (
            ok tt,
            rw (
              assign_if_or_value-found json (read_boolean json) some config "rtp_enabled" none
                  (some true) v a h b e,
              member-found json (read_boolean json) config "rtp_enabled" v a h b e,
            ),
          )
      | inr b ↦ inr (v, refl, b)
    ]

    texts :
        (key : String)
        → (e : MaybeOk) × (assign_if json (read_text json) some config key none
            ≡ ok (member json (read_text json) config key, e))
    texts = assign_if-member json (read_text json) (IsSound-read_text json c) config

    numbers :
        (key : String)
        → (e : MaybeOk) × (assign_if json (read_int json) some config key none
            ≡ ok (member json (read_int json) config key, e))
    numbers = assign_if-member json (read_int json) (IsSound-read_int json c) config

    module _ (e : MaybeOk) (on : enabling config ≡ ok (some flag, e)) where
      read_receiver : network_leg_from_json L config true ≡ ok (leg_of config true)
      unfolding network_leg_from_json initialised
      read_receiver = rw (
        on,
        (assign_if-member json (read_text json) (IsSound-read_text json c) config
            "source_address").1,
        (assign_if-member json (read_int json) (IsSound-read_int json c) config
            "destination_port").1,
        (assign_if-member json (read_text json) (IsSound-read_text json c) config
            "interface_name").1,
        (assign_if-member json (read_text json) (IsSound-read_text json c) config
            "multicast_address").1,
        (assign_if-member json (read_text json) (IsSound-read_text json c) config
            "interface_address").1,
      )

      read_sender : network_leg_from_json L config false ≡ ok (leg_of config false)
      unfolding network_leg_from_json initialised
      read_sender = rw (
        on,
        (assign_if-member json (read_text json) (IsSound-read_text json c) config
            "source_address").1,
        (assign_if-member json (read_int json) (IsSound-read_int json c) config
            "destination_port").1,
        (assign_if-member json (read_text json) (IsSound-read_text json c) config
            "interface_name").1,
        (assign_if-member json (read_text json) (IsSound-read_text json c) config
            "destination_address").1,
        (numbers "source_port").1,
      )

    read_leg :
        (is_receiver : Bool) (e : MaybeOk)
        → enabling config ≡ ok (some flag, e)
        → network_leg_from_json L config is_receiver ≡ ok (leg_of config is_receiver)
    read_leg true e on = read_receiver e on
    read_leg false e on = read_sender e on

    -- Without "rtp_enabled", or with a Boolean there, the leg that is read is the one that the
    -- members describe, each other member with a value of the wrong type taken for absent.
    pub network_leg_from_json_lem :
        (is_receiver : Bool)
        → ((v : Json) → find_member config "rtp_enabled" ≡ some v → is_boolean v ≡ true)
        → network_leg_from_json L config is_receiver ≡ ok (leg_of config is_receiver)
    network_leg_from_json_lem is_receiver h =
        elim (enabling-cases (find_member config "rtp_enabled") refl) [
          | inl (e, on) ↦ read_leg is_receiver e on
          | inr (v, found, wrong) ↦ absurd (false≢true (sym wrong ∙ h v found))
        ]

    disabled :
        (is_receiver : Bool) (e : MaybeOk)
        → enabling config ≡ ok (none, e)
        → network_leg_from_json L config is_receiver ≡ undefined
    unfolding network_leg_from_json initialised
    disabled true e on = rw (
      on,
      (texts "source_address").1,
      (numbers "destination_port").1,
      (texts "interface_name").1,
      (assign_if-member json (read_text json) (IsSound-read_text json c) config
          "multicast_address").1,
      (assign_if-member json (read_text json) (IsSound-read_text json c) config
          "interface_address").1,
    )
    disabled false e on = rw (
      on,
      (texts "source_address").1,
      (numbers "destination_port").1,
      (texts "interface_name").1,
      (assign_if-member json (read_text json) (IsSound-read_text json c) config
          "destination_address").1,
      (numbers "source_port").1,
    )

    -- With a value of another type under "rtp_enabled", a flag with no value is read, which has no
    -- defined behaviour.
    pub network_leg_from_json_indeterminate :
        (is_receiver : Bool) (v : Json)
        → find_member config "rtp_enabled" ≡ some v
        → is_boolean v ≡ false
        → network_leg_from_json L config is_receiver ≡ undefined
    network_leg_from_json_indeterminate is_receiver v h b = disabled is_receiver _ (
        assign_if_or_value-mistyped json (read_boolean json) some config "rtp_enabled" none
          (some true) v h b)
