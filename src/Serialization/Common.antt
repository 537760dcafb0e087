-- ===== src/Serialization/Common.antt =====
-- meta.cpp, device.cpp, network.cpp and video.cpp.
pub mod Leg
use nmos_sender_receiver_fra.Prelude.{String, Bool, true, Option, none, some, if◌then◌else◌}
use nmos_sender_receiver_fra.Expected.{
  Expected, MaybeOk, ok, unexpected, thrown, undefined, ◌>>=◌, ◌>>◌,
}
use nmos_sender_receiver_fra.Libraries.{Libraries}
use nmos_sender_receiver_fra.Json.Access.{
  read_text, read_boolean, read_int, read_json, or_thrown, find, assign_if, assign_if_or_value,
}
use nmos_sender_receiver_fra.Configuration.{MetaInfo, NmosDevice, NetworkLeg, Network}

-- A member with an indeterminate value must not be read.
unfoldable pub initialised {ℓ} : {A : Type ℓ} → Option A → Expected A
initialised none = undefined
initialised (some a) = ok a

module _ (L : Libraries) where
  open L use {json, Json, Rational, make_rational, find_member}

  -- The rest of `nmos_meta_from_json` once the id is looked up.
  meta_with : Json → MetaInfo → Expected String → Expected (MetaInfo × MaybeOk)
  meta_with config info (ok id) = do
    (label, _) ← assign_if json (read_text json) (λ s. s) config "label" info.label
    (description, _) ←
        assign_if json (read_text json) (λ s. s) config "description" info.description
    ok (record { id = id; label = label; description = description }, ok tt)
  meta_with config info (unexpected e) = ok (info, unexpected e)
  meta_with config info thrown = thrown
  meta_with config info undefined = undefined

  -- The object after the call, and what the call returns.
  unfoldable pub nmos_meta_from_json : Json → MetaInfo → Expected (MetaInfo × MaybeOk)
  unfolding meta_with
  nmos_meta_from_json config info = meta_with config info (find json (read_text json) config "id")

  unfoldable pub nmos_device_from_json : String → Json → Expected NmosDevice
  nmos_device_from_json node_id config = do
    id ← find json (read_text json) config "id"
    label ← find json (read_text json) config "label"
    description ← find json (read_text json) config "description"
    ok (record {
      meta = record { id = id; label = label; description = description };
      node_id = node_id;
    })

  unfoldable pub network_leg_from_json : Json → Bool → Expected NetworkLeg
  network_leg_from_json config is_receiver = do
    (enabled, _) ←
        assign_if_or_value json (read_boolean json) some config "rtp_enabled" none (some true)
    (source, _) ← assign_if json (read_text json) some config "source_address" none
    (port, _) ← assign_if json (read_int json) some config "destination_port" none
    (name, _) ← assign_if json (read_text json) some config "interface_name" none
    if is_receiver
        then (do
          (multicast, _) ← assign_if json (read_text json) some config "multicast_address" none
          (interface, _) ← assign_if json (read_text json) some config "interface_address" none
          rtp_enabled ← initialised enabled
          ok (record {
            rtp_enabled = rtp_enabled;
            source_port = none;
            source_ip = source;
            destination_ip = multicast;
            destination_port = port;
            interface_name = name;
            interface_ip = interface;
          }))
        else (do
          (destination, _) ← assign_if json (read_text json) some config "destination_address" none
          (source_port, _) ← assign_if json (read_int json) some config "source_port" none
          rtp_enabled ← initialised enabled
          ok (record {
            rtp_enabled = rtp_enabled;
            source_port = source_port;
            source_ip = source;
            destination_ip = destination;
            destination_port = port;
            interface_name = name;
            interface_ip = none;
          }))

  secondary_leg : Bool → Option Json → Expected (Option NetworkLeg)
  secondary_leg is_receiver none = ok none
  secondary_leg is_receiver (some j) = do leg ← network_leg_from_json j is_receiver; ok (some leg)

  unfoldable pub network_from_json : Json → Bool → Expected Network
  unfolding secondary_leg
  network_from_json config is_receiver = do
    primary ← find json (read_json json) config "primary"
    leg ← network_leg_from_json primary is_receiver
    secondary ← secondary_leg is_receiver (find_member config "secondary")
    ok (record { primary = leg; secondary = secondary })

  unfoldable pub framerate_from_json : Json → Expected Rational
  framerate_from_json config = do
    numerator ← find json (read_int json) config "num"
    denominator ← find json (read_int json) config "den"
    or_thrown (make_rational numerator denominator)
