-- ===== src/Node/Controller/Found.antt =====
-- What is found in the node model after an operation.
use nmos_sender_receiver_fra.Prelude.{
  String, ◌≡◌, refl, ap, subst, ◌∙◌, inl, inr, Option, none, some, List, [], ◌∷◌, ◌++◌, ltb,
  Bool-cases,
}
use nmos_sender_receiver_fra.Expected.{
  Error, Expected, MaybeOk, Safe, is_ok, is_error, ok, unexpected, thrown, undefined,
}
use nmos_sender_receiver_fra.Libraries.{Libraries}
use nmos_sender_receiver_fra.Node.Action.{
  Action, proceed, Ensures-proceed, Always-proceed, Safe-proceed, attempt-value, either_branch,
  proceed-undefined,
}
use nmos_sender_receiver_fra.Node.Api.{Nmos}
use nmos_sender_receiver_fra.Node.Controller.{
  Part, of_node, of_connection, Model, part, with_part, updated, locked, erased, insert_item,
  insert_resource_after, erase_item, must_be_error, erase_resource_after, find_resource_after,
  found, erase_sub, erase_subs, has_connection, erase_device,
}

module _ (L : Libraries) (nmos : Nmos L) where
  open nmos use {Item, Store, item_id, item_type, sub_resources}

  -- The id finds a resource, or an error.
  abbrev pub IsFound : Part → String → Model L nmos → Type 0
  IsFound p id m = (item : Item) × (find_resource_after L nmos p id m ≡ ok item)

  abbrev pub IsGone : Part → String → Model L nmos → Type 0
  IsGone p id m = (e : Error) × (find_resource_after L nmos p id m ≡ unexpected e)

  reads-IsFound :
      (p : Part) (id : String) (m : Model L nmos) (r : Expected Item) (t : Model L nmos)
      (b : Unit {0})
      → find_resource_after L nmos p id m ≡ r
      → proceed (m, r) (λ _ s. (s, ok tt)) ≡ (t, ok b)
      → IsFound p id t
  reads-IsFound p id m (ok item) t b h e = (
    item,
    subst (λ x. find_resource_after L nmos p id x ≡ ok item)
        (ap (λ (x : Model L nmos × MaybeOk). x.0) e) h,
  )
  reads-IsFound p id m (unexpected _) t b h e = cc
  reads-IsFound p id m thrown t b h e = cc
  reads-IsFound p id m undefined t b h e = cc

  -- When an insertion succeeds, the id of the resource finds a resource.
  pub insert_item-IsFound :
      (p : Part) (item : Item) (m t : Model L nmos) (u : Unit {0})
      → insert_item L nmos p item m ≡ (t, ok u)
      → IsFound p (item_id item) t
  unfolding insert_item
  insert_item-IsFound p item m t u =
      Ensures-proceed {Q = λ s _. IsFound p (item_id item) s}
        (insert_resource_after L nmos p item m) _
        (λ _ s _ t' b h. reads-IsFound p (item_id item) s _ t' b refl h) t u

  reads-IsGone :
      (p : Part) (id : String) (m : Model L nmos) (r : Expected Item) (t : Model L nmos)
      (u : Unit {0})
      → find_resource_after L nmos p id m ≡ r
      → ◌≡◌ {A = Model L nmos × MaybeOk} (m, must_be_error L nmos r) (t, ok u)
      → IsGone p id t
  unfolding must_be_error
  reads-IsGone p id m (ok item) t b h e = cc
  reads-IsGone p id m (unexpected x) t b h e = (
    x,
    subst (λ y. find_resource_after L nmos p id y ≡ unexpected x)
        (ap (λ (y : Model L nmos × MaybeOk). y.0) e) h,
  )
  reads-IsGone p id m thrown t b h e = cc
  reads-IsGone p id m undefined t b h e = cc

  -- When an erasure succeeds, the id finds nothing.
  pub erase_item-IsGone :
      (p : Part) (id : String) (m t : Model L nmos) (u : Unit {0})
      → erase_item L nmos p id m ≡ (t, ok u)
      → IsGone p id t
  unfolding erase_item
  erase_item-IsGone p id m t u =
      Ensures-proceed {Q = λ s _. IsGone p id s} (erase_resource_after L nmos p id m) _
        (λ _ s _ t' b h. reads-IsGone p id s _ t' b refl h) t u

  -- The same resources of the node, in the same state of it.
  pub record SameNode (m t : Model L nmos) : Type 0 where
    pub same_resources : t.node_resources ≡ m.node_resources
    pub same_shutdown : t.shutdown ≡ m.shutdown

  find-SameNode :
      (id : String) (m t : Model L nmos)
      → SameNode m t
      → find_resource_after L nmos of_node id t ≡ find_resource_after L nmos of_node id m
  unfolding find_resource_after part
  find-SameNode id m t h = rw (h.same_resources, h.same_shutdown)

  erase_connection-SameNode :
      (id : String) (m : Model L nmos) → SameNode m (erase_item L nmos of_connection id m).0
  unfolding erase_item erase_resource_after erased updated locked part with_part
  erase_connection-SameNode id m =
      Always-proceed (SameNode m) (erase_resource_after L nmos of_connection id m) _
        (elim (Bool-cases m.shutdown) [
          | inl e ↦ rw e (record { same_resources = refl; same_shutdown = refl })
          | inr e ↦ rw e (record { same_resources = refl; same_shutdown = refl })
        ])
        (λ _ s h. h)

  -- Erasing a connection resource brings nothing back to the node.
  pub erase_connection-keeps :
      (id : String) (m t : Model L nmos) (u : Unit {0})
      → IsGone of_node id m
      → erase_item L nmos of_connection id m ≡ (t, ok u)
      → IsGone of_node id t
  erase_connection-keeps id m t u (e, gone) h =
      let same =
        subst (SameNode m) (ap (λ (r : Model L nmos × MaybeOk). r.0) h)
          (erase_connection-SameNode id m) in
      (e, find-SameNode id m t same ∙ gone)

  found-Safe : (o : Option Item) → Safe {A = Item} (λ _. Unit) (found L nmos o)
  unfolding found
  found-Safe none = is_error
  found-Safe (some item) = is_ok tt

  find-Safe :
      (p : Part) (id : String) (m : Model L nmos)
      → Safe (λ _. Unit) (find_resource_after L nmos p id m)
  unfolding find_resource_after
  find-Safe p id m =
      either_branch (Safe {A = Item} (λ _. Unit)) m.shutdown is_error
        (found-Safe (nmos.find_resource (part L nmos p m) id))

  must_be_error-Safe :
      (r : Expected Item)
      → Safe {A = Item} (λ _. Unit) r
      → Safe {A = Unit {0}} (λ _. Unit) (must_be_error L nmos r)
  unfolding must_be_error
  must_be_error-Safe (ok _) h = is_error
  must_be_error-Safe (unexpected _) h = is_ok tt
  must_be_error-Safe thrown h = elim h [ ]
  must_be_error-Safe undefined h = elim h [ ]

  erase_item-Safe :
      (p : Part) (id : String) (m : Model L nmos) → Safe (λ _. Unit) (erase_item L nmos p id m).1
  unfolding erase_item erase_resource_after erased updated locked
  erase_item-Safe p id m =
      Safe-proceed {P = λ _. Unit} (erase_resource_after L nmos p id m) _
        (either_branch (λ (r : Model L nmos × MaybeOk). Safe (λ _. Unit) r.1) m.shutdown is_error
          (either_branch (Safe {A = Unit {0}} (λ _. Unit))
            (ltb 0 (nmos.erase_resource (part L nmos p m) id).1) (is_ok tt) is_error))
        (λ _ s. must_be_error-Safe _ (find-Safe p id s))

  -- Erasing a sub-resource that is found gives a result, and leaves the node's resources.
  erase_sub-value :
      (item : Item) (m : Model L nmos)
      → (t : Model L nmos) × (x : MaybeOk) × (erase_sub L nmos (ok item) m ≡ (t, ok x))
        × SameNode m t
  unfolding erase_sub
  erase_sub-value item m = elim (Bool-cases (has_connection L nmos (item_type item))) [
    | inl e ↦
        let (x, h) =
          attempt-value (erase_item L nmos of_connection (item_id item) m)
            (erase_item-Safe of_connection (item_id item) m) in
        (_, x, rw (e, h), erase_connection-SameNode (item_id item) m)
    | inr e ↦ (m, ok tt, rw e, record { same_resources = refl; same_shutdown = refl })
  ]

  next_sub :
      (r : Expected Item) (m : Model L nmos) (next : MaybeOk → Action (Model L nmos) (List MaybeOk))
      → Safe {A = Item} (λ _. Unit) r
      → ((s : Model L nmos) → SameNode m s → (y : MaybeOk) → (next y s).1 ≡ undefined)
      → (proceed (erase_sub L nmos r m) next).1 ≡ undefined
  unfolding erase_sub
  next_sub (ok item) m next h k = let (t, x, e, same) = erase_sub-value item m in rw e (k t same x)
  next_sub (unexpected e) m next h k = refl
  next_sub thrown m next h k = refl
  next_sub undefined m next h k = refl

  erase_subs-undefined :
      (before after : List String) (id : String) (e : Error) (m : Model L nmos)
      → find_resource_after L nmos of_node id m ≡ unexpected e
      → (erase_subs L nmos (before ++ id ∷ after) m).1 ≡ undefined
  unfolding erase_subs
  erase_subs-undefined [] after id e m h = rw (h, erase_sub)
  erase_subs-undefined (x ∷ xs) after id e m h =
      next_sub (find_resource_after L nmos of_node x m) m _ (find-Safe of_node x m) λ s same y.
        proceed-undefined (erase_subs L nmos (xs ++ id ∷ after) s) _
          (erase_subs-undefined xs after id e s (find-SameNode id m s same ∙ h))

  -- A device of which one sub-resource is not found in the node: `erase_device` reads the result of
  -- the search as if it were a resource, which has no defined behaviour.
  pub erase_device-undefined :
      (device_id id : String) (device : Item) (before after : List String) (e : Error)
      (m : Model L nmos)
      → find_resource_after L nmos of_node device_id m ≡ ok device
      → sub_resources device ≡ before ++ id ∷ after
      → find_resource_after L nmos of_node id m ≡ unexpected e
      → (erase_device L nmos device_id m).1 ≡ undefined
  unfolding erase_device
  erase_device-undefined device_id id device before after e m f s g =
      rw (f, s)
        (proceed-undefined (erase_subs L nmos (before ++ id ∷ after) m) _
          (erase_subs-undefined before after id e m g))
