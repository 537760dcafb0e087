-- ===== src/Node/Client/Removal.antt =====
-- What a removal by the client leaves in the node and in the map of resources.
use nmos_sender_receiver_fra.Prelude.{String, ◌≡◌, ap, subst}
use nmos_sender_receiver_fra.Expected.{MaybeOk, resource_not_found, ok, unexpected}
use nmos_sender_receiver_fra.Libraries.{Libraries}
use nmos_sender_receiver_fra.Context.ResourceMap.{
  ResourceType, sender, receiver, type_eq, find_resource,
}
use nmos_sender_receiver_fra.Context.ResourceMap.Erase.{find_resource-erase}
use nmos_sender_receiver_fra.Context.Resource.{resource_class}
use nmos_sender_receiver_fra.Node.Action.{proceed, Ensures-proceed}
use nmos_sender_receiver_fra.Node.Api.{Nmos}
use nmos_sender_receiver_fra.Node.Controller.{of_node, of_connection, Model, erase_item}
use nmos_sender_receiver_fra.Node.Controller.Found.{
  IsGone, erase_item-IsGone, erase_connection-keeps,
}
use nmos_sender_receiver_fra.Node.Impl as Impl
use nmos_sender_receiver_fra.Node.Client.{Client, with_model, remove_resource}

module _ (L : Libraries) (nmos : Nmos L) where
  -- Neither the node nor its connections have the id.
  abbrev GoneFromModel : String → Model L nmos → Type 0
  GoneFromModel id m = IsGone L nmos of_node id m × IsGone L nmos of_connection id m

  -- Nothing has the id: not the node's resources, not the connections, not the client's map.
  pub record IsRemoved (id : String) (c : Client L nmos) : Type 0 where
    pub from_node : IsGone L nmos of_node id c.model
    pub from_connections : IsGone L nmos of_connection id c.model
    pub from_map :
        find_resource (resource_class L) id c.resources ≡ unexpected (resource_not_found id)

  -- The receivers and the senders.
  pub data HasConnection : ResourceType → Type 0 where
    a_receiver : HasConnection receiver
    a_sender : HasConnection sender

  erases_both :
      (id : String) (m t : Model L nmos) (u : Unit {0})
      → proceed (erase_item L nmos of_node id m) (λ _. erase_item L nmos of_connection id)
        ≡ (t, ok u)
      → GoneFromModel id t
  erases_both id m t u =
      Ensures-proceed {Q = λ s _. GoneFromModel id s} (erase_item L nmos of_node id m) _
        (λ v s e t' w h. (
          erase_connection-keeps L nmos id s t' w (erase_item-IsGone L nmos of_node id m s v e) h,
          erase_item-IsGone L nmos of_connection id s t' w h,
        ))
        t u

  impl_removes :
      (id : String) (type : ResourceType) (m t : Model L nmos) (u : Unit {0})
      → HasConnection type
      → Impl.remove_resource L nmos id type m ≡ (t, ok u)
      → GoneFromModel id t
  unfolding Impl.remove_resource type_eq
  impl_removes id type m t u a_receiver =
      Ensures-proceed {Q = λ s _. GoneFromModel id s} (Impl.must_have L nmos id receiver m) _
        (λ _ s _ t' w h. erases_both id s t' w h) t u
  impl_removes id type m t u a_sender =
      Ensures-proceed {Q = λ s _. GoneFromModel id s} (Impl.must_have L nmos id sender m) _
        (λ _ s _ t' w h. erases_both id s t' w h) t u

  on_node-ok :
      (c t : Client L nmos) (u : Unit {0}) (r : Model L nmos × MaybeOk)
      → with_model L nmos c r ≡ (t, ok u)
      → r ≡ (t.model, ok u)
  on_node-ok c t u (m, x) h = ap (λ (y : Client L nmos × MaybeOk). (y.0.model, y.1)) h

  -- When the removal of a receiver or a sender succeeds, nothing has its id any more.
  pub remove_resource-IsRemoved :
      (id : String) (type : ResourceType) (c t : Client L nmos) (u : Unit {0})
      → HasConnection type
      → remove_resource L nmos id type c ≡ (t, ok u)
      → IsRemoved id t
  unfolding remove_resource
  remove_resource-IsRemoved id type c t u k =
      Ensures-proceed {Q = λ s _. IsRemoved id s}
        (with_model L nmos c (Impl.remove_resource L nmos id type c.model)) _
        (λ v s e t' w h.
          let (n, p) = impl_removes id type c.model s.model v k (on_node-ok c s v _ e) in
          subst (IsRemoved id) (ap (λ (y : Client L nmos × MaybeOk). y.0) h) (record {
            from_node = n;
            from_connections = p;
            from_map = find_resource-erase (resource_class L) id s.resources;
          }))
        t u
