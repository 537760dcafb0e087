-- ===== src/Node/Client.antt =====
-- nmos_client.cpp: the client. The context's map of resources and the node model are its state.
pub mod Removal
pub mod Addition
use nmos_sender_receiver_fra.Prelude.{
  ℕ, zero, suc, ◌+◌, ◌-◌, ◌*◌, ◌/◌, ◌%◌, ◌^◌, ◌≤◌, ◌<◌, Char, code, String, ◌≡◌, refl, sym, ap,
  subst, ◌∙◌, ◌≢◌, ◌↔◌, ◌⊎◌, inl, inr, Bool, true, false, not, ◌&&◌, ◌||◌, false≢true, Option, none,
  some, List, [], ◌∷◌, ◌++◌, map, arith, str_eq, eq_iff, eq_refl, ltb, leb, ◌==◌, if◌then◌else◌,
  ltb→lt, leb→le, ==_iff, Bool-cases, Option-cases, length, get_elem?, length-append, size, drop,
  take, append, char_at,
}
use nmos_sender_receiver_fra.Expected.{
  Error, Expected, MaybeOk, other, ok, unexpected, thrown, undefined,
}
use nmos_sender_receiver_fra.Libraries.{Libraries}
use nmos_sender_receiver_fra.Json.Access.{or_thrown}
use nmos_sender_receiver_fra.Configuration.{NmosReceiver, NmosSender, NmosDevice}
use nmos_sender_receiver_fra.Serialization.Common.{nmos_device_from_json}
use nmos_sender_receiver_fra.Serialization.Receiver.{nmos_receiver_from_json}
use nmos_sender_receiver_fra.Serialization.Sender.{nmos_sender_from_json}
use nmos_sender_receiver_fra.Context.ResourceMap.{
  ResourceMap, ResourceType, sender, receiver, source, flow, insert, erase, get_sender_ids,
  get_receiver_ids,
}
use nmos_sender_receiver_fra.Context.Resource.{Resource, new_receiver, new_sender, resource_class}
use nmos_sender_receiver_fra.Node.Action.{Action, ◌>>=◌, ◌>>◌, reading, pure, lift}
use nmos_sender_receiver_fra.Node.Api.{Nmos}
use nmos_sender_receiver_fra.Node.Controller.{Model}
use nmos_sender_receiver_fra.Node.Impl.{Makers, modify_device_sub_resources}
use nmos_sender_receiver_fra.Node.Impl as Impl

module _ (L : Libraries) (nmos : Nmos L) where
  open L use {parse}

  pub record Client : Type 0 where
    pub node_id : String
    pub model : Model L nmos
    pub resources : ResourceMap (Resource L)

  -- context_->nmos()
  abbrev with_model : {A : Type 0} → Client → Model L nmos × Expected A → Client × Expected A
  with_model c (m, r) = (record c { model = m }, r)

  abbrev pub on_node : {A : Type 0} → Action (Model L nmos) A → Action Client A
  on_node act c = with_model c (act c.model)

  -- context_->resources()
  abbrev pub on_map :
      (ResourceMap (Resource L) → ResourceMap (Resource L)) → Action Client (Unit {0})
  on_map f c = (record c { resources = f c.resources }, ok tt)

  unfoldable pub update_device_sub_resources : String → Action Client (Unit {0})
  update_device_sub_resources device_id = do
    senders_ids ← reading (λ c. ok (get_sender_ids (resource_class L) c.resources))
    receiver_ids ← reading (λ c. ok (get_receiver_ids (resource_class L) c.resources))
    on_node (modify_device_sub_resources L nmos device_id receiver_ids senders_ids)

  unfoldable pub remove_resource : String → ResourceType → Action Client (Unit {0})
  remove_resource id type = do
    on_node (Impl.remove_resource L nmos id type)
    on_map (erase (resource_class L) id)

  unfoldable pub remove_receiver : String → String → Action Client (Unit {0})
  remove_receiver device_id config = do
    j ← lift (or_thrown (parse config))
    receiver_config ← lift (nmos_receiver_from_json L j)
    remove_resource receiver_config.id receiver
    update_device_sub_resources device_id

  unfoldable pub remove_sender : String → String → Action Client (Unit {0})
  remove_sender device_id config = do
    j ← lift (or_thrown (parse config))
    sender_config ← lift (nmos_sender_from_json L j)
    remove_resource sender_config.id sender
    remove_resource sender_config.source.id source
    remove_resource sender_config.flow.id flow
    update_device_sub_resources device_id

  module _ (make : Makers L nmos) where
    unfoldable pub add_device : String → Action Client (Unit {0})
    add_device config = do
      j ← lift (or_thrown (parse config))
      device_config ← λ c. (c, nmos_device_from_json L c.node_id j)
      on_node (Impl.add_device L nmos make device_config)

    unfoldable pub add_receiver : String → String → Action Client (Unit {0})
    add_receiver device_id config = do
      j ← lift (or_thrown (parse config))
      parsed ← lift (nmos_receiver_from_json L j)
      let receiver_config = record parsed { master_enable = true }
      on_map (insert (resource_class L) device_id (new_receiver L device_id receiver_config))
      on_node (Impl.add_receiver L nmos make device_id receiver_config)
      update_device_sub_resources device_id

    unfoldable pub add_sender : String → String → Action Client (Unit {0})
    add_sender device_id config = do
      j ← lift (or_thrown (parse config))
      parsed ← lift (nmos_sender_from_json L j)
      let sender_config = record parsed { master_enable = true }
      on_map (insert (resource_class L) device_id (new_sender L device_id sender_config))
      on_node (Impl.add_sender L nmos make device_id sender_config)
      update_device_sub_resources device_id
