-- ===== src/Context/EventHandler/Activation.antt =====
-- A patch of a receiver's connection and its activation, in this order.
use nmos_sender_receiver_fra.Prelude.{
  String, ◌≡◌, refl, sym, ap, ◌∙◌, ◌≢◌, inl, inr, Bool, true, false, Option, none, some, List, [],
  ◌∷◌, str_eq, eq_iff, Bool-cases,
}
use nmos_sender_receiver_fra.Expected.{Expected, ok, ok-injective}
use nmos_sender_receiver_fra.Libraries.{Libraries}
use nmos_sender_receiver_fra.Context.ResourceMap.{ResourceMap, find_among, find_resource}
use nmos_sender_receiver_fra.Context.ResourceMap.Contents.{find_resource_lem}
use nmos_sender_receiver_fra.Context.Resource.{
  Resource, ReceiverResource, receiver_resource, receiver_call, get_id, resource_class,
  handle_patch, handle_activation, get_sdp_from_configuration,
}
use nmos_sender_receiver_fra.Context.EventHandler.{
  Context, also, store_among, stored, store, handle_active_state_changed, handle_patch_request,
}

module _ (L : Libraries) where
  open L use {Json, parse}

  str_ne : (a b : String) → a ≢ b → str_eq a b ≡ false
  str_ne a b h = elim (Bool-cases (str_eq a b)) [
    | inl e ↦ absurd (h ((eq_iff a b).0 e))
    | inr e ↦ e
  ]

  abbrev find : String → ResourceMap (Resource L) → Expected (Resource L)
  find id m = find_resource (resource_class L) id m

  abbrev find_in : String → List (Resource L) → Expected (Resource L) → Expected (Resource L)
  find_in id rs others = find_among (resource_class L) id rs others

  -- What storing `r` for `id` in the list has to give.
  abbrev IsStored : String → Resource L → List (Resource L) → Option (List (Resource L)) → Type 0
  IsStored id r rs none = (others : Expected (Resource L)) → find_in id rs others ≡ others
  IsStored id r rs (some rs') =
      ((others : Expected (Resource L)) → find_in id rs' others ≡ ok r)
      × ((j : String) (others : Expected (Resource L))
          → j ≢ id
          → find_in j rs' others ≡ find_in j rs others)

  also-IsStored :
      (id : String) (r x : Resource L) (rs : List (Resource L)) (o : Option (List (Resource L)))
      → str_eq (get_id L x) id ≡ false
      → IsStored id r rs o
      → IsStored id r (x ∷ rs) (also L x o)
  unfolding also find_among
  also-IsStored id r x rs none e h = λ others. rw e (h others)
  also-IsStored id r x rs (some rs') e h =
      (λ others. rw e (h.0 others), λ j others ne. rw (h.1 j others ne))

  store_among-IsStored :
      (id : String) (r : Resource L) (rs : List (Resource L))
      → get_id L r ≡ id
      → IsStored id r rs (store_among L id r rs)
  unfolding store_among find_among
  store_among-IsStored id r [] same = λ others. refl
  store_among-IsStored id r (x ∷ rs) same = elim (Bool-cases (str_eq (get_id L x) id)) [
    | inl e ↦ rw e (
      λ others. rw ((eq_iff _ _).1 same),
      λ j others ne. rw (
        str_ne (get_id L r) j (λ p. ne (sym p ∙ same)),
        str_ne (get_id L x) j (λ p. ne (sym p ∙ (eq_iff _ _).0 e)),
      ),
    )
    | inr e ↦ rw e (also-IsStored id r x rs _ e (store_among-IsStored id r rs same))
  ]

  store-IsStored :
      (id : String) (r r' : Resource L) (k : String) (rs : List (Resource L))
      (m m' : ResourceMap (Resource L)) (o : Option (List (Resource L)))
      → IsStored id r' rs o
      → (find id m ≡ ok r → find id m' ≡ ok r')
      → find id ((k, rs) ∷ m) ≡ ok r
      → find id (stored L k rs o m m') ≡ ok r'
  unfolding stored find_resource
  store-IsStored id r r' k rs m m' none h step f =
      rw (h (find id m')) (step (sym (h (find id m)) ∙ f))
  store-IsStored id r r' k rs m m' (some rs') h step f = h.0 (find id m)

  pub find_resource-store :
      (id : String) (r r' : Resource L) (m : ResourceMap (Resource L))
      → get_id L r' ≡ id
      → find id m ≡ ok r
      → find id (store L id r' m) ≡ ok r'
  unfolding store find_resource
  find_resource-store id r r' [] same f = cc
  find_resource-store id r r' ((k, rs) ∷ m) same f =
      store-IsStored id r r' k rs m (store L id r' m) _ (store_among-IsStored id r' rs same)
        (find_resource-store id r r' m same) f

  stored_ne :
      (id j : String) (r : Resource L) (k : String) (rs : List (Resource L))
      (m m' : ResourceMap (Resource L)) (o : Option (List (Resource L)))
      → j ≢ id
      → IsStored id r rs o
      → find j m' ≡ find j m
      → find j (stored L k rs o m m') ≡ find j ((k, rs) ∷ m)
  unfolding stored find_resource
  stored_ne id j r k rs m m' none ne h step = rw step
  stored_ne id j r k rs m m' (some rs') ne h step = h.1 j (find j m) ne

  pub find_resource-store_ne :
      (id j : String) (r : Resource L) (m : ResourceMap (Resource L))
      → get_id L r ≡ id
      → j ≢ id
      → find j (store L id r m) ≡ find j m
  unfolding store
  find_resource-store_ne id j r [] same ne = refl
  find_resource-store_ne id j r ((k, rs) ∷ m) same ne =
      stored_ne id j r k rs m (store L id r m) _ ne (store_among-IsStored id r rs same)
        (find_resource-store_ne id j r m same ne)

  find-has :
      (id : String) (m : ResourceMap (Resource L)) (r : Resource L)
      → find id m ≡ ok r
      → get_id L r ≡ id
  find-has id m r f = elim (find_resource_lem (resource_class L) id m) [
    | inl (x, g, first) ↦ ap (get_id L) (ok-injective (sym f ∙ g)) ∙ first.has
    | inr (g, lacks) ↦ cc
  ]

  -- The SDP that a patch leaves in a receiver.
  abbrev pub patched_sdp : Bool → Json → Expected (Option String)
  patched_sdp true configuration = get_sdp_from_configuration L configuration
  patched_sdp false configuration = ok none

  abbrev with_sdp : ReceiverResource L → Option String → Resource L
  with_sdp r sdp = receiver_resource (record r { sdp = sdp })

  handle_patch-receiver :
      (enable : Bool) (configuration : Json) (r : ReceiverResource L) (sdp : Option String)
      → patched_sdp enable configuration ≡ ok sdp
      → handle_patch L enable configuration (receiver_resource r) ≡ ok (with_sdp r sdp)
  unfolding handle_patch
  handle_patch-receiver true configuration r sdp h = rw h
  handle_patch-receiver false configuration r sdp h = rw (ok-injective h)

  -- For a receiver of the map and texts that parse: a patch succeeds and an activation after it
  -- succeeds, returns the parameters that it was given, and has called the receiver's callback once, with the SDP
  -- that the patch brought, none if it disabled the receiver, and the parsed parameters; every other id finds what it found.
  pub activation-after_patch :
      (id : String) (r : ReceiverResource L) (c : Context L) (enable active : Bool)
      (staged params : String) (configuration tp : Json) (sdp : Option String) (j : String)
      → find id c.resources ≡ ok (receiver_resource r)
      → parse staged ≡ some configuration
      → parse params ≡ some tp
      → patched_sdp enable configuration ≡ ok sdp
      → j ≢ id
      → (c1 : Context L) × (c2 : Context L) × (handle_patch_request L id (some enable) staged c
          ≡ ok c1)
        × (handle_active_state_changed L id (some active) params c1 ≡ ok (params, c2))
        × (c2.calls ≡ receiver_call id sdp active tp ∷ c.calls)
        × (find j c2.resources ≡ find j c.resources)
  unfolding handle_patch_request handle_active_state_changed handle_activation get_id
  activation-after_patch id r c enable active staged params configuration tp sdp j f p q h ne =
      let same : r.config.id ≡ id = find-has id c.resources (receiver_resource r) f in
      let r1 = with_sdp r sdp in
      let r2 : Resource L = receiver_resource (record r { sdp = sdp; master_enable = active }) in
      let m1 = store L id r1 c.resources in
      let m2 = store L id r2 m1 in
      let f1 = find_resource-store id (receiver_resource r) r1 c.resources same f in
      (
        record c { resources = m1 },
        record { resources = m2; calls = receiver_call id sdp active tp ∷ c.calls },
        rw (f, p, handle_patch-receiver enable configuration r sdp h),
        rw (f1, q)
            (ap
              (λ i. ok (
                params,
                record { resources = m2; calls = receiver_call i sdp active tp ∷ c.calls },
              ))
              same),
        refl,
        find_resource-store_ne id j r2 m1 same ne
            ∙ find_resource-store_ne id j r1 c.resources same ne,
      )
