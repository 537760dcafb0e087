-- ===== src/Node/Controller/Erased.antt =====
-- What an erasure leaves of the node model.
use nmos_sender_receiver_fra.Prelude.{
  String, ◌≡◌, refl, ap, ◌∙◌, Bool, true, false, none, some, ltb, if◌then◌else◌, if_false,
}
use nmos_sender_receiver_fra.Expected.{MaybeOk, other, ok, unexpected}
use nmos_sender_receiver_fra.Libraries.{Libraries}
use nmos_sender_receiver_fra.Node.Action.{proceed}
use nmos_sender_receiver_fra.Node.Api.{Nmos}
use nmos_sender_receiver_fra.Node.Controller.{
  Part, of_node, of_connection, Model, part, with_part, updated, erased, erase_resource_after,
  find_resource_after, found, must_be_error, erase_item,
}

module _ (L : Libraries) (nmos : Nmos L) where
  open nmos use {Item, Store, find_resource, erase_resource, forget_erased_resources}

  -- What nmos-cpp documents of the erasure of a resource: it and those below it are erased, which are
  -- counted, and no other.
  pub record Erases : Type 0 where
    pub below : Store → String → String → Bool
    pub self : (s : Store) (id : String) → below s id id ≡ true
    pub counts :
        (s : Store) (id : String) (x : Item)
        → find_resource s id ≡ some x
        → ltb 0 (erase_resource s id).1 ≡ true
    pub erases :
        (s : Store) (id key : String)
        → find_resource (forget_erased_resources (erase_resource s id).0) key
          ≡ (if below s id key then none else find_resource s key)

  -- The other part of the model.
  abbrev pub rest : Part → Model L nmos → Store
  rest of_node m = m.connection_resources
  rest of_connection m = m.node_resources

  -- In the part, the resources below the id, and no others, are gone; the rest is as it was.
  pub record IsErased (law : Erases) (p : Part) (id : String) (m t : Model L nmos) : Type 0 where
    pub gone : find_resource (part L nmos p t) id ≡ none
    pub others :
        (key : String)
        → Erases.below law (part L nmos p m) id key ≡ false
        → find_resource (part L nmos p t) key ≡ find_resource (part L nmos p m) key
    pub same_rest : rest p t ≡ rest p m
    pub same_shutdown : t.shutdown ≡ m.shutdown

  -- The model after the erasure.
  abbrev after : Part → String → Model L nmos → Model L nmos
  after p id m =
      with_part L nmos p (forget_erased_resources (erase_resource (part L nmos p m) id).0) m

  module _ (law : Erases) where
    itself-none :
        (s : Store) (id : String)
        → find_resource (forget_erased_resources (erase_resource s id).0) id ≡ none
    itself-none s id =
        law.erases s id id ∙ ap (λ b. if b then none else find_resource s id) (law.self s id)

    after-IsErased :
        (p : Part) (id : String) (m : Model L nmos) → IsErased law p id m (after p id m)
    unfolding part with_part
    after-IsErased of_node id m = record {
      gone = itself-none m.node_resources id;
      others = λ key h. law.erases m.node_resources id key ∙ if_false _ _ h;
      same_rest = refl;
      same_shutdown = refl;
    }
    after-IsErased of_connection id m = record {
      gone = itself-none m.connection_resources id;
      others = λ key h. law.erases m.connection_resources id key ∙ if_false _ _ h;
      same_rest = refl;
      same_shutdown = refl;
    }

    counted :
        (p : Part) (id : String) (m : Model L nmos) (x : Item)
        → m.shutdown ≡ false
        → find_resource (part L nmos p m) id ≡ some x
        → erase_resource_after L nmos p id m ≡ (after p id m, ok tt)
    unfolding erase_resource_after erased updated
    counted p id m x up h =
        if_false _ _ up
        ∙ ap
            (λ (b : Bool).
              (after p id m, if b then ok tt else unexpected (other "Error deleting from model")))
            (law.counts (part L nmos p m) id x h)

    nothing_found :
        (p : Part) (id : String) (m : Model L nmos)
        → m.shutdown ≡ false
        → find_resource_after L nmos p id (after p id m) ≡ unexpected (other "Resource not found")
    unfolding find_resource_after found
    nothing_found p id m up =
        let k = after-IsErased p id m in
        if_false _ _ (k.same_shutdown ∙ up) ∙ ap (found L nmos) k.gone

    -- Where nmos-cpp erases a resource and those below it: in a running node, the erasure of a resource
    -- that is there succeeds; it is gone then, the resources of the same part that are not below it are
    -- found as before, and the other part is as it was.
    pub erase_item-IsErased :
        (p : Part) (id : String) (m : Model L nmos) (x : Item)
        → m.shutdown ≡ false
        → find_resource (part L nmos p m) id ≡ some x
        → (t : Model L nmos) × (erase_item L nmos p id m ≡ (t, ok tt)) × IsErased law p id m t
    unfolding erase_item must_be_error
    erase_item-IsErased p id m x up h = (
      after p id m,
      ap
            (λ (r : Model L nmos × MaybeOk).
              proceed r (λ _ s. (s, must_be_error L nmos (find_resource_after L nmos p id s))))
            (counted p id m x up h)
          ∙ ap (λ r. (after p id m, must_be_error L nmos r)) (nothing_found p id m up),
      after-IsErased p id m,
    )
