-- ===== src/Node/Controller.antt =====
-- nmos_controller.cpp: the operations of nmos_controller_t on the node model. A lock makes each of them
-- one step; waiting for it ends at once, and returns an error if the node is shutting down.
pub mod Found
pub mod Erased
use nmos_sender_receiver_fra.Prelude.{
  ℕ, String, Bool, not, ◌||◌, Option, none, some, List, [], ◌∷◌, ltb, if◌then◌else◌,
}
use nmos_sender_receiver_fra.Expected.{Expected, MaybeOk, other, ok, unexpected, thrown, undefined}
use nmos_sender_receiver_fra.Libraries.{Libraries}
use nmos_sender_receiver_fra.Context.ResourceMap.{ResourceType, sender, receiver, type_eq}
use nmos_sender_receiver_fra.Node.Action.{Action, ◌>>=◌, ◌>>◌, reading, pure, fail, lift, attempt}
use nmos_sender_receiver_fra.Node.Api.{Nmos}

-- node_model_.node_resources or node_model_.connection_resources.
pub data Part : Type 0 where
  of_node of_connection : Part

module _ (L : Libraries) (nmos : Nmos L) where
  open nmos use {
    Item, Store, item_id, item_type, sub_resources, versioned, forget_erased_resources,
    has_resource,
  }

  pub record Model : Type 0 where
    pub node_resources : Store
    pub connection_resources : Store
    pub shutdown : Bool

  unfoldable pub part : Part → Model → Store
  part of_node m = m.node_resources
  part of_connection m = m.connection_resources

  unfoldable pub with_part : Part → Store → Model → Model
  with_part of_node s m = record m { node_resources = s }
  with_part of_connection s m = record m { connection_resources = s }

  -- The resources after an operation, and an error if nothing was done.
  unfoldable pub updated : Part → String → Model → Store × Bool → Model × MaybeOk
  updated p why m (s, done) = (with_part p s m, if done then ok tt else unexpected (other why))

  locked : {A : Type 0} → Model → Model × Expected A
  locked m = (m, unexpected (other "Could not lock node model"))

  unfoldable pub insert_resource_after : Part → Item → Action Model (Unit {0})
  unfolding updated locked
  insert_resource_after p item m =
      if m.shutdown
      then locked m
      else updated p "Error updating model" m (nmos.insert_resource (part p m) item)

  unfoldable pub modify_resource_after : Part → String → (Item → Item) → Action Model (Unit {0})
  unfolding updated locked
  modify_resource_after p id modifier m =
      if m.shutdown
      then locked m
      else updated p "Error updating resource" m
          (nmos.modify_resource (part p m) id (λ item. versioned (modifier item)))

  erased : Part → Model → Store × ℕ → Model × MaybeOk
  unfolding updated
  erased p m (s, count) =
      updated p "Error deleting from model" m (forget_erased_resources s, ltb 0 count)

  unfoldable pub erase_resource_after : Part → String → Action Model (Unit {0})
  unfolding erased locked
  erase_resource_after p id m =
      if m.shutdown then locked m else erased p m (nmos.erase_resource (part p m) id)

  unfoldable pub found : Option Item → Expected Item
  found none = unexpected (other "Resource not found")
  found (some item) = ok item

  unfoldable pub find_resource_after : Part → String → Model → Expected Item
  unfolding found
  find_resource_after p id m =
      if m.shutdown
      then unexpected (other "Could not lock node model")
      else found (nmos.find_resource (part p m) id)

  -- insert_resource and insert_connection_resource
  unfoldable pub insert_item : Part → Item → Action Model (Unit {0})
  insert_item p item = do
    insert_resource_after p item
    _ ← reading (find_resource_after p (item_id item))
    pure tt

  -- The check of what `find_resource` returned.
  must_be_error : Expected Item → MaybeOk
  must_be_error (ok _) = unexpected (other "Error erasing resource.")
  must_be_error (unexpected _) = ok tt
  must_be_error thrown = thrown
  must_be_error undefined = undefined

  -- erase_resource and erase_connection_resource
  unfoldable pub erase_item : Part → String → Action Model (Unit {0})
  unfolding must_be_error
  erase_item p id = do
    erase_resource_after p id
    reading (λ m. must_be_error (find_resource_after p id m))

  has_connection : ResourceType → Bool
  has_connection t = type_eq t receiver || type_eq t sender

  -- The function of `std::transform` in `erase_device`; `resource->type` of an error is undefined.
  erase_sub : Expected Item → Model → Model × Expected MaybeOk
  unfolding has_connection
  erase_sub (ok item) m =
      if has_connection (item_type item)
      then attempt (erase_item of_connection (item_id item) m)
      else (m, ok (ok tt))
  erase_sub _ m = (m, undefined)

  pub erase_subs : List String → Action Model (List MaybeOk)
  unfolding erase_sub
  erase_subs [] = pure []
  erase_subs (id ∷ ids) = do
    r ← λ m. erase_sub (find_resource_after of_node id m) m
    rest ← erase_subs ids
    pure (r ∷ rest)

  -- The first error of the results, if there is one.
  unfoldable pub first_error : List MaybeOk → MaybeOk
  first_error [] = ok tt
  first_error (unexpected e ∷ rs) = unexpected e
  first_error (ok _ ∷ rs) = first_error rs
  first_error (thrown ∷ rs) = first_error rs
  first_error (undefined ∷ rs) = first_error rs

  unfoldable pub erase_device : String → Action Model (Unit {0})
  erase_device device_id = do
    device ← reading (find_resource_after of_node device_id)
    results ← erase_subs (sub_resources device)
    lift (first_error results)
    erase_item of_node device_id

  -- The inner loop of call_senders_with.
  call_senders_of : (Item → Action Model (Unit {0})) → List String → Action Model (Unit {0})
  call_senders_of f [] = pure tt
  call_senders_of f (id ∷ ids) =
      let rest = call_senders_of f ids in
      do
        r ← reading (find_resource_after of_node id)
        if type_eq (item_type r) sender then f r else pure tt
        rest

  call_devices : (Item → Action Model (Unit {0})) → List String → Action Model (Unit {0})
  unfolding call_senders_of
  call_devices f [] = pure tt
  call_devices f (id ∷ ids) = do
    d ← reading (find_resource_after of_node id)
    call_senders_of f (sub_resources d)
    call_devices f ids

  unfoldable pub call_senders_with :
      String → (Item → Action Model (Unit {0})) → Action Model (Unit {0})
  unfolding call_devices
  call_senders_with node_id f = do
    n ← reading (find_resource_after of_node node_id)
    call_devices f (sub_resources n)

  unfoldable pub has : String → ResourceType → Model → Bool
  has id type m = has_resource m.node_resources id type
