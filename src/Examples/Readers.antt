-- ===== src/Examples/Readers.antt =====
-- Readers of JSON values and configurations, at concrete ones.
use nmos_sender_receiver_fra.Prelude.{ℕ, String, ◌≡◌, refl, subst, ◌≢◌, ◌⊎◌, inl, true, some}
use nmos_sender_receiver_fra.Expected.{
  MaybeOk, Safe, key_not_found, member_not_found, wrong_type, ok, unexpected, thrown, undefined,
}
use nmos_sender_receiver_fra.Json.Access.{
  get_as, read_text, find, assign_if, assign_if_or, assign_if_or_value,
}
use nmos_sender_receiver_fra.Json.Access.Laws.{IsSound-read_text, Assigned, assignments}
use nmos_sender_receiver_fra.Serialization.Common.{network_leg_from_json}
use nmos_sender_receiver_fra.Serialization.Common.Leg.{leg_of, network_leg_from_json_lem}
use nmos_sender_receiver_fra.Serialization.Receiver.{format_specific}
use nmos_sender_receiver_fra.Serialization.Receiver.VideoOnly.{
  HasOneCapability, format_specific-audio,
}
use nmos_sender_receiver_fra.Serialization.SenderId.{synthetize_id, last_char, replace_last}
use nmos_sender_receiver_fra.Serialization.SenderId.Distinct.{
  LastDigit, IsShifted, synthetize_id_lem, ids_distinct,
}
use nmos_sender_receiver_fra.Serialization.Sender.{nmos_sender_from_json}
use nmos_sender_receiver_fra.Serialization.Sender.Consistent.{
  IsConsistent, nmos_sender_from_json-IsConsistent, nmos_sender_from_json-unnamed,
}
use nmos_sender_receiver_fra.Stdlib.Stoi.{stoi, is_space, digit?}
use nmos_sender_receiver_fra.Stdlib.Hex.{hex_char}
use nmos_sender_receiver_fra.Examples.Values.{
  Value, boolean, number, text, array, object, empty, cons, done, with, values, values-Converts,
}
use nmos_sender_receiver_fra.Examples.Configs.{
  libraries, leg, sender_config, unnamed_config, audio_receiver_config, sender_of_config,
  reads_sender,
}

nmos_sender_from_json-IsConsistent_example : IsConsistent libraries sender_of_config
nmos_sender_from_json-IsConsistent_example =
    nmos_sender_from_json-IsConsistent libraries sender_config sender_of_config reads_sender

no_id : find values (read_text values) unnamed_config "id" ≡ unexpected (key_not_found "id")
unfolding find
no_id = refl

nmos_sender_from_json-unnamed_example : nmos_sender_from_json libraries unnamed_config ≡ thrown
nmos_sender_from_json-unnamed_example =
    nmos_sender_from_json-unnamed libraries unnamed_config (key_not_found "id") values-Converts
      no_id

one_capability : HasOneCapability libraries audio_receiver_config "audio/L24"
one_capability = record {
  array = array (cons (text "audio/L24") empty);
  entry = text "audio/L24";
  at_key = refl;
  array_lem = refl;
  one = refl;
  text = refl;
}

format_specific-audio_example : format_specific libraries audio_receiver_config ≡ undefined
format_specific-audio_example =
    format_specific-audio libraries audio_receiver_config "audio/L24" one_capability (inl refl)

shifts_by_one : synthetize_id "0f" 1 ≡ ok "00"
unfolding synthetize_id last_char replace_last stoi is_space digit? hex_char
shifts_by_one = refl

shifts_by_two : synthetize_id "0f" 2 ≡ ok "01"
unfolding synthetize_id last_char replace_last stoi is_space digit? hex_char
shifts_by_two = refl

abbrev id : String
id = "0f"

abbrev flow_id : String
flow_id = "00"

abbrev source_id : String
source_id = "01"

ids_distinct_example : (flow_id ≢ id) × (source_id ≢ id) × (flow_id ≢ source_id)
ids_distinct_example = ids_distinct id flow_id source_id shifts_by_one shifts_by_two

synthetize_id_lem_example :
    ((x : String) × (synthetize_id "0f" 1 ≡ ok x) × IsShifted "0f" 1 x)
    ⊎ ((synthetize_id "0f" 1 ≡ thrown) × ((v : ℕ) → ¬ LastDigit "0f" v))
synthetize_id_lem_example = synthetize_id_lem "0f" 1

flag_is_boolean :
    (v : Value) → values.find_member leg "rtp_enabled" ≡ some v → values.is_boolean v ≡ true
flag_is_boolean v h =
    let e : boolean true ≡ v = cc in subst (λ (x : Value). values.is_boolean x ≡ true) e refl

network_leg_from_json_lem_example :
    network_leg_from_json libraries leg true ≡ ok (leg_of libraries leg true)
network_leg_from_json_lem_example =
    network_leg_from_json_lem libraries values-Converts leg true flag_is_boolean

abbrev AfterText : String × MaybeOk → String × MaybeOk → String × MaybeOk → Type 0
AfterText missing wrong =
    Assigned values (read_text values) (λ (s : String). s) (values.find_member leg "rtp_enabled")
      missing wrong

assignments_example :
    Safe
      (AfterText
        ("old", unexpected (member_not_found "rtp_enabled"))
        ("old", unexpected wrong_type))
      (assign_if values (read_text values) (λ s. s) leg "rtp_enabled" "old")
    × Safe
        (AfterText ("new", ok tt) ("new", unexpected wrong_type))
        (assign_if_or values (read_text values) (λ s. s) leg "rtp_enabled" "new")
    × Safe
        (AfterText ("new", ok tt) ("old", unexpected wrong_type))
        (assign_if_or_value values (read_text values) (λ s. s) leg "rtp_enabled" "old" "new")
assignments_example =
    assignments values (read_text values) (IsSound-read_text values values-Converts) (λ s. s) leg
      "rtp_enabled" "old" "new"

-- An attribute of an SDP file.
abbrev attribute : String → Value → Value
attribute name value = object (with "name" (text name) (with "value" value done))

abbrev attributes : Value
attributes = array (
    cons (attribute "ptime" (number 1))
      (cons (attribute "fmtp" leg) (cons (attribute "fmtp" (number 2)) empty)))

has_name :
    (name : String) (value : Value)
    → find values (read_text values) (attribute name value) "name" ≡ ok name
unfolding find get_as
has_name name value = refl
