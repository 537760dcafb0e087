-- ===== src/Node/Client/Addition.antt =====
-- What an addition by the client leaves in the map of resources.
use nmos_sender_receiver_fra.Prelude.{String, ◌≡◌, refl, true, some, ◌∷◌}
use nmos_sender_receiver_fra.Expected.{MaybeOk, ok}
use mathlib.Core.List.{Perm}
use nmos_sender_receiver_fra.Libraries.{Libraries}
use nmos_sender_receiver_fra.Configuration.{NmosReceiver, NmosSender}
use nmos_sender_receiver_fra.Serialization.Receiver.{nmos_receiver_from_json}
use nmos_sender_receiver_fra.Serialization.Sender.{nmos_sender_from_json}
use nmos_sender_receiver_fra.Context.ResourceMap.{
  ResourceMap, get_receiver_ids, get_sender_ids, insert,
}
use nmos_sender_receiver_fra.Context.ResourceMap.Contents.{contents, insert-contents}
use nmos_sender_receiver_fra.Context.Resource.{Resource, new_receiver, new_sender, resource_class}
use nmos_sender_receiver_fra.Node.Action.{Always-proceed}
use nmos_sender_receiver_fra.Node.Api.{Nmos}
use nmos_sender_receiver_fra.Node.Controller.{Model}
use nmos_sender_receiver_fra.Node.Impl.{Makers, modify_device_sub_resources}
use nmos_sender_receiver_fra.Node.Impl as Impl
use nmos_sender_receiver_fra.Node.Client.{
  Client, with_model, update_device_sub_resources, add_receiver, add_sender,
}

module _ (L : Libraries) (nmos : Nmos L) where
  open L use {Json, parse}

  -- The map of resources is `m`.
  abbrev HasMap : ResourceMap (Resource L) → Client L nmos → Type 0
  HasMap m c = c.resources ≡ m

  on_node-HasMap :
      (c : Client L nmos) (m : ResourceMap (Resource L)) (r : Model L nmos × MaybeOk)
      → HasMap m c
      → HasMap m (with_model L nmos c r).0
  on_node-HasMap c m (x, y) h = h

  update-HasMap :
      (device_id : String) (c : Client L nmos) (m : ResourceMap (Resource L))
      → HasMap m c
      → HasMap m (update_device_sub_resources L nmos device_id c).0
  unfolding update_device_sub_resources
  update-HasMap device_id c m h =
      on_node-HasMap c m
        (modify_device_sub_resources L nmos device_id
          (get_receiver_ids (resource_class L) c.resources)
          (get_sender_ids (resource_class L) c.resources) c.model)
        h

  module _ (make : Makers L nmos) (device_id config : String) (j : Json) (c : Client L nmos) where
    -- Once its configuration is read, a receiver is added to the client's map, and nothing else is changed
    -- there, whether the node then accepts the receiver or an error is returned.
    pub add_receiver-contents :
        (r : NmosReceiver)
        → parse config ≡ some j
        → nmos_receiver_from_json L j ≡ ok r
        → Perm
            (contents (add_receiver L nmos make device_id config c).0.resources)
            (new_receiver L device_id (record r { master_enable = true }) ∷ contents c.resources)
    unfolding add_receiver
    add_receiver-contents r p q =
        let entry = new_receiver L device_id (record r { master_enable = true }) in
        let m = insert (resource_class L) device_id entry c.resources in
        let made =
          Impl.add_receiver L nmos make device_id (record r { master_enable = true }) c.model in
        let kept : HasMap m (add_receiver L nmos make device_id config c).0 =
          rw (p, q)
            (Always-proceed (HasMap m) (with_model L nmos (record c { resources = m }) made) _
              (on_node-HasMap (record c { resources = m }) m made refl)
              (λ _ s h. update-HasMap device_id s m h)) in
        rw kept (insert-contents (resource_class L) device_id entry c.resources)

    -- Once its configuration is read, a sender is added to the client's map, and nothing else is changed
    -- there, whether the node then accepts the sender or an error is returned.
    pub add_sender-contents :
        (s : NmosSender L)
        → parse config ≡ some j
        → nmos_sender_from_json L j ≡ ok s
        → Perm
            (contents (add_sender L nmos make device_id config c).0.resources)
            (new_sender L device_id (record s { master_enable = true }) ∷ contents c.resources)
    unfolding add_sender
    add_sender-contents s p q =
        let entry = new_sender L device_id (record s { master_enable = true }) in
        let m = insert (resource_class L) device_id entry c.resources in
        let made =
          Impl.add_sender L nmos make device_id (record s { master_enable = true }) c.model in
        let kept : HasMap m (add_sender L nmos make device_id config c).0 =
          rw (p, q)
            (Always-proceed (HasMap m) (with_model L nmos (record c { resources = m }) made) _
              (on_node-HasMap (record c { resources = m }) m made refl)
              (λ _ t h. update-HasMap device_id t m h)) in
        rw kept (insert-contents (resource_class L) device_id entry c.resources)
