-- ===== src/Examples/Nodes.antt =====
-- The node and the client over a list of resources.
use nmos_sender_receiver_fra.Prelude.{
  ℕ, ltb, size, String, ◌≡◌, refl, Bool, true, false, ◌||◌, Option, none, some, List, [], ◌∷◌,
  str_eq, if◌then◌else◌,
}
use nmos_sender_receiver_fra.Expected.{Expected, ok, unexpected, undefined, other}
use mathlib.Core.List.{Perm}
use nmos_sender_receiver_fra.Context.ResourceMap.{
  ResourceType, device, source, flow, receiver, sender, type_eq, erase, erase_key,
  remove_everywhere,
}
use nmos_sender_receiver_fra.Context.ResourceMap.Contents.{contents}
use nmos_sender_receiver_fra.Context.Resource.{Resource, new_receiver, new_sender}
use nmos_sender_receiver_fra.Node.Api.{Nmos}
use nmos_sender_receiver_fra.Node.Impl.{Makers, must_have}
use nmos_sender_receiver_fra.Node.Impl as Impl
use nmos_sender_receiver_fra.Node.Action.{either_branch}
use nmos_sender_receiver_fra.Node.Utils.{Returns, returns_value, returns_error}
use nmos_sender_receiver_fra.Node.Controller.{
  has, Model, of_node, insert_item, erase_item, erase_device, insert_resource_after,
  erase_resource_after, find_resource_after, part, with_part,
}
use nmos_sender_receiver_fra.Node.Controller.Found.{erase_device-undefined}
use nmos_sender_receiver_fra.Node.Client.{Client, remove_resource, add_sender}
use nmos_sender_receiver_fra.Node.Client.Removal.{IsRemoved, a_receiver, remove_resource-IsRemoved}
use nmos_sender_receiver_fra.Node.Client.Addition.{add_sender-contents}
use nmos_sender_receiver_fra.Examples.Values.{null}
use nmos_sender_receiver_fra.Examples.Configs.{
  libraries, sender_config, sender_of_config, receiver_of_config, reads_sender,
}

abbrev Entry : Type 0
Entry = String × ResourceType × List String

abbrev id_of : Entry → String
id_of e = e.0

abbrev inserted : List Entry → Entry → Bool → List Entry × Bool
inserted l e true = (l, false)
inserted l e false = (e ∷ l, true)

abbrev is_in : List Entry → String → Bool
is_in [] id = false
is_in (e ∷ l) id = str_eq (id_of e) id || is_in l id

abbrev without : List Entry → String → List Entry
without [] id = []
without (e ∷ l) id = let rest = without l id in if str_eq (id_of e) id then rest else e ∷ rest

abbrev found_in : List Entry → String → Option Entry
found_in [] id = none
found_in (e ∷ l) id = let rest = found_in l id in if str_eq (id_of e) id then some e else rest

abbrev entries : Nmos libraries
entries = record {
  Item = Entry;
  item_id = id_of;
  item_type = λ e. e.1;
  sub_resources = λ e. e.2;
  item_data = λ e. null;
  with_data = λ e _. e;
  set_field = λ v _ _. v;
  of_elements = λ _. null;
  versioned = λ e. e;
  Store = List Entry;
  insert_resource = λ l e. inserted l e (is_in l (id_of e));
  modify_resource = λ l id f. (l, is_in l id);
  erase_resource = λ l id. (without l id, if is_in l id then 1 else 0);
  forget_erased_resources = λ l. l;
  find_resource = found_in;
  has_resource = λ l id t. is_in l id;
}

abbrev screen_entry : Entry
screen_entry = ("screen", receiver, [])

-- A device that names a resource that the node does not have.
abbrev stage_entry : Entry
stage_entry = ("stage", device, "lost" ∷ [])

abbrev a_node : Model libraries entries
a_node = record {
  node_resources = stage_entry ∷ screen_entry ∷ [];
  connection_resources = screen_entry ∷ [];
  shutdown = false;
}

abbrev without_screen : Model libraries entries
without_screen = record {
  node_resources = stage_entry ∷ [];
  connection_resources = screen_entry ∷ [];
  shutdown = false;
}

inserts : insert_item libraries entries of_node screen_entry without_screen ≡ (
  record {
    node_resources = screen_entry ∷ stage_entry ∷ [];
    connection_resources = screen_entry ∷ [];
    shutdown = false;
  },
  ok tt,
)
unfolding insert_item insert_resource_after find_resource_after part with_part
inserts = refl

erases : erase_item libraries entries of_node "screen" a_node ≡ (without_screen, ok tt)
unfolding erase_item erase_resource_after find_resource_after part with_part
erases = refl

stage_found : find_resource_after libraries entries of_node "stage" a_node ≡ ok stage_entry
unfolding find_resource_after part
stage_found = refl

lost :
    find_resource_after libraries entries of_node "lost" a_node
    ≡ unexpected (other "Resource not found")
unfolding find_resource_after part
lost = refl

erase_device-undefined_example : (erase_device libraries entries "stage" a_node).1 ≡ undefined
erase_device-undefined_example =
    erase_device-undefined libraries entries "stage" "lost" stage_entry [] []
      (other "Resource not found") a_node stage_found refl lost

abbrev client : Client libraries entries
client = record { node_id = "node"; model = a_node; resources = ("stage", []) ∷ [] }

abbrev client_after : Client libraries entries
client_after = record {
  node_id = "node";
  model = record { node_resources = stage_entry ∷ []; connection_resources = []; shutdown = false };
  resources = ("stage", []) ∷ [];
}

removes : remove_resource libraries entries "screen" receiver client ≡ (client_after, ok tt)
unfolding remove_resource Impl.remove_resource must_have has erase_item erase_resource_after
    find_resource_after part with_part erase type_eq erase_key remove_everywhere
removes = refl

remove_resource-IsRemoved_example : IsRemoved libraries entries "screen" client_after
remove_resource-IsRemoved_example =
    remove_resource-IsRemoved libraries entries "screen" receiver client client_after tt a_receiver
      removes

abbrev makers : Makers libraries entries
makers = record {
  make_device = λ d. (d.id, device, []);
  make_receiver = λ _ r. (r.id, receiver, []);
  make_connection_receiver = λ _ r. (r.id, receiver, []);
  make_source = λ _ s. ok (s.source.id, source, []);
  make_video_flow = λ _ _ f _ _ _. ok (f.id, flow, []);
  make_audio_flow = λ _ _ f _. ok (f.id, flow, []);
  make_sender = λ _ s. (s.id, sender, []);
  make_connection_sender = λ _ s. (s.id, sender, []);
}

abbrev added_receiver : Resource libraries
added_receiver = new_receiver libraries "stage" (record receiver_of_config { master_enable = true })

abbrev added_sender : Resource libraries
added_sender = new_sender libraries "stage" (record sender_of_config { master_enable = true })

add_sender-contents_example :
    Perm
      (contents (add_sender libraries entries makers "stage" "sender" client).0.resources)
      (added_sender ∷ contents client.resources)
add_sender-contents_example =
    add_sender-contents libraries entries makers "stage" "sender" sender_config client
      sender_of_config refl reads_sender

-- A longer name is refused.
abbrev short : String → Expected ℕ
short s = if ltb (size s) 6 then ok (size s) else unexpected (other s)

short-Returns : (s : String) → Returns (short s)
short-Returns s = either_branch Returns (ltb (size s) 6) returns_value returns_error
