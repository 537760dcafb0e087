-- ===== src/Node/Update/Restaged.antt =====
-- What a changed receiver stages.
use nmos_sender_receiver_fra.Prelude.{
  String, ◌≡◌, refl, sym, ap, subst, ◌∙◌, Bool, true, false, some, if◌then◌else◌, if_false,
}
use nmos_sender_receiver_fra.Expected.{MaybeOk, other, ok, unexpected}
use nmos_sender_receiver_fra.Libraries.{Libraries}
use nmos_sender_receiver_fra.Configuration.{NmosReceiver}
use nmos_sender_receiver_fra.Node.Action.{proceed}
use nmos_sender_receiver_fra.Node.Api.{Nmos}
use nmos_sender_receiver_fra.Node.Controller.{
  of_connection, Model, part, with_part, updated, found, find_resource_after, modify_resource_after,
}
use nmos_sender_receiver_fra.Node.Transport.{WebValues, update_connection_receiver_staged_params}
use nmos_sender_receiver_fra.Node.Transport.Params.{Assigns}
use nmos_sender_receiver_fra.Node.Transport.Staged.{IsStaged, update-IsStaged}
use nmos_sender_receiver_fra.Node.Update.{restaged, modify_connection_receiver}

module _ (L : Libraries) (nmos : Nmos L) (W : WebValues L) where
  open L use {Web}
  open nmos use {Item, Store, item_data, with_data, versioned, find_resource, modify_resource}
  open W use {member}

  -- What nmos-cpp documents of its resources: a resource that is found is modified, and a new version
  -- changes no other member.
  pub record Modifies : Type 0 where
    pub done :
        (s : Store) (id : String) (f : Item → Item) (x : Item)
        → find_resource s id ≡ some x
        → (modify_resource s id f).1 ≡ true
    pub modified :
        (s : Store) (id : String) (f : Item → Item) (x : Item)
        → find_resource s id ≡ some x
        → find_resource (modify_resource s id f).0 id ≡ some (f x)
    pub kept : (x : Item) (d : Web) → item_data (with_data x d) ≡ d
    pub stamped :
        (x : Item)
        → member (item_data (versioned x)) "endpoint_staged"
          ≡ member (item_data x) "endpoint_staged"

  module _ (w : Assigns L W) where
    restaged-staged :
        (version : Web) (config : NmosReceiver) (content : Web)
        → member (restaged L nmos W version config content) "endpoint_staged"
          ≡ update_connection_receiver_staged_params L W version config
              (member content "endpoint_active")
    unfolding restaged
    restaged-staged version config content = simp (w.member_set)

    updated-done :
        (why : String) (m : Model L nmos) (r : Store × Bool)
        → r.1 ≡ true
        → updated L nmos of_connection why m r ≡ (record m { connection_resources = r.0 }, ok tt)
    unfolding updated with_part
    updated-done why m (s, done) e =
        ap
          (λ b.
            (record m { connection_resources = s }, if b then ok tt else unexpected (other why)))
          e

    pub finds :
        (id : String) (m : Model L nmos) (x : Item)
        → m.shutdown ≡ false
        → find_resource m.connection_resources id ≡ some x
        → find_resource_after L nmos of_connection id m ≡ ok x
    unfolding find_resource_after part found
    finds id m x up h = if_false _ _ up ∙ ap (found L nmos) h

    module _ (law : Modifies) where
      -- The node has the connection and changes it.
      pub changes :
          (id : String) (f : Item → Item) (m : Model L nmos) (x : Item)
          → m.shutdown ≡ false
          → find_resource m.connection_resources id ≡ some x
          → modify_resource_after L nmos of_connection id f m ≡ (
            record m {
              connection_resources =
                  (modify_resource m.connection_resources id (λ y. versioned (f y))).0;
            },
            ok tt,
          )
      unfolding modify_resource_after part
      changes id f m x up h =
          if_false _ _ up ∙ updated-done "Error updating resource" m _ (law.done _ id _ x h)

      -- The staged endpoint after the change.
      changed-IsStaged :
          (version : Web) (config : NmosReceiver) (old : Item)
          → IsStaged L W w config.master_enable config.network true
              (member (item_data old) "endpoint_active")
              (member
                (item_data
                  (versioned (with_data old (restaged L nmos W version config (item_data old)))))
                "endpoint_staged")
      changed-IsStaged version config old =
          subst
            (IsStaged L W w config.master_enable config.network true
              (member (item_data old) "endpoint_active"))
            (sym (
              law.stamped _
              ∙ ap (λ d. member d "endpoint_staged") (law.kept old _)
              ∙ restaged-staged version config (item_data old)))
            (update-IsStaged L W w version config (member (item_data old) "endpoint_active"))

      -- The change of a receiver's connection that the node has succeeds, and the connection then stages
      -- the configuration over what was active.
      pub modify_connection_receiver-IsStaged :
          (version : Web) (config : NmosReceiver) (m : Model L nmos) (old : Item)
          → m.shutdown ≡ false
          → find_resource m.connection_resources config.id ≡ some old
          → ((modify_connection_receiver L nmos W version config m).1 ≡ ok tt)
            × (new : Item) × (find_resource
                  (modify_connection_receiver L nmos W version config m).0.connection_resources
                  config.id
                ≡ some new)
            × IsStaged L W w config.master_enable config.network true
                (member (item_data old) "endpoint_active")
                (member (item_data new) "endpoint_staged")
      unfolding modify_connection_receiver
      modify_connection_receiver-IsStaged version config m old up h =
          let f = λ (resource : Item).
            with_data resource (restaged L nmos W version config (item_data old)) in
          subst
            (λ (r : Model L nmos × MaybeOk).
              (r.1 ≡ ok tt)
              × (new : Item) × (find_resource r.0.connection_resources config.id ≡ some new)
              × IsStaged L W w config.master_enable config.network true
                  (member (item_data old) "endpoint_active")
                  (member (item_data new) "endpoint_staged"))
            (sym (
              ap
                (λ x.
                  proceed (m, x)
                    (λ y.
                      modify_resource_after L nmos of_connection config.id
                        (λ z. with_data z (restaged L nmos W version config (item_data y)))))
                (finds config.id m old up h)
              ∙ changes config.id f m old up h))
            (
              refl,
              versioned (f old),
              law.modified m.connection_resources config.id (λ y. versioned (f y)) old h,
              changed-IsStaged version config old,
            )
