-- ===== src/Examples/Resources.antt =====
-- The map of resources and the events, at concrete ones.
use nmos_sender_receiver_fra.Prelude.{
  String, ◌≡◌, refl, ◌≢◌, ◌⊎◌, true, false, false≢true, none, some, [], ◌∷◌, eq_iff,
}
use nmos_sender_receiver_fra.Expected.{resource_not_found, ok, unexpected}
use mathlib.Core.List.{Perm}
use nmos_sender_receiver_fra.Context.ResourceMap.{
  ResourceType, sender, receiver, IsResource, ResourceMap, insert, erase, find_resource,
  get_sender_ids, get_receiver_ids,
}
use nmos_sender_receiver_fra.Context.ResourceMap.Contents.{
  contents, ids-insert, with_id, Lacks, IsFirst, find_resource_lem,
}
use nmos_sender_receiver_fra.Context.ResourceMap.Erase.{find_resource-erase}
use nmos_sender_receiver_fra.Context.Resource.{
  ReceiverResource, get_id, receiver_resource, receiver_call, resource_class, new_sender,
  handle_sdp_info_request, get_sdp_from_configuration,
}
use nmos_sender_receiver_fra.Context.Resource.Requests.{handle_sdp_info_request-answers}
use nmos_sender_receiver_fra.Context.EventHandler.{
  Context, handle_patch_request, handle_active_state_changed,
}
use nmos_sender_receiver_fra.Context.EventHandler.Activation.{activation-after_patch}
use nmos_sender_receiver_fra.Serialization.Sender.Consistent.{nmos_sender_from_json-IsConsistent}
use nmos_sender_receiver_fra.Examples.Values.{patch}
use nmos_sender_receiver_fra.Examples.Configs.{
  libraries, sender_config, sender_of_config, receiver_of_config, reads_sender,
}

-- A resource as its id and its type.
abbrev plain : IsResource (String × ResourceType)
plain = record { get_id = λ r. r.0; get_resource_type = λ r. r.1 }

abbrev camera : String × ResourceType
camera = ("camera", sender)

abbrev screen : String × ResourceType
screen = ("screen", receiver)

abbrev microphone : String × ResourceType
microphone = ("microphone", sender)

abbrev two_devices : ResourceMap (String × ResourceType)
two_devices = ("studio", camera ∷ screen ∷ []) ∷ ("stage", microphone ∷ []) ∷ []

ids-insert_example :
    Perm
      (get_sender_ids plain (insert plain "stage" screen two_devices))
      (with_id plain sender screen (get_sender_ids plain two_devices))
    × Perm
        (get_receiver_ids plain (insert plain "stage" screen two_devices))
        (with_id plain receiver screen (get_receiver_ids plain two_devices))
ids-insert_example = ids-insert plain "stage" screen two_devices

find_resource_lem_example :
    ((r : String × ResourceType) × (find_resource plain "microphone" two_devices ≡ ok r)
      × IsFirst plain "microphone" (contents two_devices) r)
    ⊎ ((find_resource plain "microphone" two_devices ≡ unexpected (resource_not_found "microphone"))
        × Lacks plain "microphone" (contents two_devices))
find_resource_lem_example = find_resource_lem plain "microphone" two_devices

find_resource-erase_example :
    find_resource plain "screen" (erase plain "screen" two_devices)
    ≡ unexpected (resource_not_found "screen")
find_resource-erase_example = find_resource-erase plain "screen" two_devices

handle_sdp_info_request-answers_example :
    handle_sdp_info_request libraries (new_sender libraries "studio" sender_of_config)
    ≡ ok (record { payload_type = 97; packet_time = 1 })
handle_sdp_info_request-answers_example =
    handle_sdp_info_request-answers libraries sender_of_config "studio"
      (nmos_sender_from_json-IsConsistent libraries sender_config sender_of_config reads_sender)

abbrev a_receiver : ReceiverResource libraries
a_receiver = record {
  config = receiver_of_config;
  device_id = "studio";
  master_enable = false;
  sdp = none;
}

abbrev context : Context libraries
context = record { resources = ("studio", receiver_resource a_receiver ∷ []) ∷ []; calls = [] }

abbrev receiver_id : String
receiver_id = "db9f46cf-2414-4e25-b6c6-2078159857f9"

found :
    find_resource (resource_class libraries) receiver_id context.resources
    ≡ ok (receiver_resource a_receiver)
unfolding find_resource get_id
found = refl

sdp_found : get_sdp_from_configuration libraries (patch "v=0") ≡ ok (some "v=0")
unfolding get_sdp_from_configuration
sdp_found = refl

another_id : camera.0 ≢ receiver_id
another_id h = false≢true ((eq_iff "camera" receiver_id).1 h)

activation-after_patch_example :
    (c1 : Context libraries) × (c2 : Context libraries) × (handle_patch_request libraries
        receiver_id
        (some true)
        "v=0"
        context
      ≡ ok c1)
    × (handle_active_state_changed libraries receiver_id (some true) "{}" c1 ≡ ok ("{}", c2))
    × (c2.calls ≡ receiver_call receiver_id (some "v=0") true (patch "{}") ∷ [])
    × (find_resource (resource_class libraries) "camera" c2.resources
        ≡ find_resource (resource_class libraries) "camera" context.resources)
activation-after_patch_example =
    activation-after_patch libraries receiver_id a_receiver context true true "v=0" "{}"
      (patch "v=0") (patch "{}") (some "v=0") "camera" found refl refl sdp_found another_id
