-- ===== src/Context/ResourceMap/Contents.antt =====
-- The map as the collection of its resources, which forgets devices and order.
use nmos_sender_receiver_fra.Prelude.{
  String, ◌≡◌, refl, sym, ap, ◌∙◌, ◌≢◌, ◌⊎◌, inl, inr, false≢true, Option, none, some, List, [],
  ◌∷◌, ◌++◌, arith, str_eq, eq_iff, if◌then◌else◌, Bool-cases,
}
use nmos_sender_receiver_fra.Expected.{Expected, resource_not_found, ok, unexpected}
use mathlib.Core.List.{Perm, perm_middle, append_assoc, filter_map}
use mathlib.Core.List.Perm
use nmos_sender_receiver_fra.Context.ResourceMap.{
  ResourceType, sender, receiver, type_eq, IsResource, ResourceMap, insert, find_among,
  find_resource, ids_among, ids_of, get_sender_ids, get_receiver_ids,
}

abbrev pub contents : {R : Type 0} → ResourceMap R → List R
contents [] = []
contents ((k, rs) ∷ m) = rs ++ contents m

module _ {R : Type 0} (c : IsResource R) where
  open c use {get_id, get_resource_type}

  -- Whatever the device, a map with a new entry holds this entry and what it held before.
  pub insert-contents :
      (id : String) (entry : R) (m : ResourceMap R)
      → Perm (contents (insert c id entry m)) (entry ∷ contents m)
  unfolding insert
  insert-contents id entry [] = Perm.refl _
  insert-contents id entry ((k, rs) ∷ m) = elim (Bool-cases (str_eq k id)) [
    | inl e ↦ rw (e, append_assoc) (perm_middle rs (contents m))
    | inr e ↦ rw e (
        Perm.trans (Perm.append (Perm.refl rs) (insert-contents id entry m))
          (perm_middle rs (contents m)))
  ]

  -- The ids of the resources of a type.
  abbrev id_if : ResourceType → R → Option String
  id_if t r = if type_eq (get_resource_type r) t then some (get_id r) else none

  ids_among-filter_map :
      (t : ResourceType) (rs : List R) → ids_among c t rs ≡ filter_map (id_if t) rs
  unfolding ids_among filter_map
  ids_among-filter_map t [] = refl
  ids_among-filter_map t (r ∷ rs) = elim (Bool-cases (type_eq (get_resource_type r) t)) [
    | inl e ↦ rw (e, ids_among-filter_map t rs)
    | inr e ↦ rw (e, ids_among-filter_map t rs)
  ]

  ids_among-Perm :
      (t : ResourceType) (xs ys : List R) → Perm xs ys → Perm (ids_among c t xs) (ids_among c t ys)
  ids_among-Perm t xs ys p =
      rw (ids_among-filter_map t xs, ids_among-filter_map t ys) (Perm.filter_map (id_if t) p)

  ids_among-append :
      (t : ResourceType) (xs ys : List R)
      → ids_among c t (xs ++ ys) ≡ ids_among c t xs ++ ids_among c t ys
  unfolding ids_among
  ids_among-append t [] ys = refl
  ids_among-append t (x ∷ xs) ys = ground (arith, ids_among-append t xs ys)

  ids_of-contents :
      (t : ResourceType) (m : ResourceMap R) → ids_of c t m ≡ ids_among c t (contents m)
  unfolding ids_of ids_among
  ids_of-contents t [] = refl
  ids_of-contents t ((k, rs) ∷ m) = rw (ids_among-append t rs (contents m), ids_of-contents t m)

  -- The ids of a type with the id of a new entry, if it has this type.
  abbrev pub with_id : ResourceType → R → List String → List String
  with_id t entry ids = if type_eq (get_resource_type entry) t then get_id entry ∷ ids else ids

  ids_of-insert :
      (t : ResourceType) (id : String) (entry : R) (m : ResourceMap R)
      → Perm (ids_of c t (insert c id entry m)) (with_id t entry (ids_of c t m))
  unfolding ids_among
  ids_of-insert t id entry m =
      rw (ids_of-contents t (insert c id entry m), ids_of-contents t m)
        (ids_among-Perm t _ _ (insert-contents id entry m))

  -- A new sender's id is added to the senders' ids and a new receiver's to the receivers', in some
  -- order, and the other ids are as before.
  pub ids-insert :
      (id : String) (entry : R) (m : ResourceMap R)
      → Perm (get_sender_ids c (insert c id entry m)) (with_id sender entry (get_sender_ids c m))
        × Perm
            (get_receiver_ids c (insert c id entry m))
            (with_id receiver entry (get_receiver_ids c m))
  unfolding get_sender_ids get_receiver_ids
  ids-insert id entry m = (ids_of-insert sender id entry m, ids_of-insert receiver id entry m)

  find_among-append :
      (id : String) (xs ys : List R) (others : Expected R)
      → find_among c id (xs ++ ys) others ≡ find_among c id xs (find_among c id ys others)
  unfolding find_among
  find_among-append id [] ys others = refl
  find_among-append id (x ∷ xs) ys others = ground (arith, find_among-append id xs ys others)

  pub find_resource-contents :
      (id : String) (m : ResourceMap R)
      → find_resource c id m ≡ find_among c id (contents m) (unexpected (resource_not_found id))
  unfolding find_resource
  find_resource-contents id [] = refl
  find_resource-contents id ((k, rs) ∷ m) =
      rw (find_among-append id rs (contents m), find_resource-contents id m)

  -- No resource of the list has the id.
  abbrev pub Lacks : String → List R → Type 0
  Lacks id [] = Unit
  Lacks id (r ∷ rs) = (get_id r ≢ id) × Lacks id rs

  -- `r` is the first of the resources that has the id.
  pub record IsFirst (id : String) (l : List R) (r : R) : Type 0 where
    pub before : List R
    pub after : List R
    pub splits : l ≡ before ++ r ∷ after
    pub lacks : Lacks id before
    pub has : get_id r ≡ id

  find_among_lem :
      (id : String) (l : List R) (others : Expected R)
      → ((r : R) × (find_among c id l others ≡ ok r) × IsFirst id l r)
        ⊎ ((find_among c id l others ≡ others) × Lacks id l)
  unfolding find_among
  find_among_lem id [] others = inr (refl, tt)
  find_among_lem id (x ∷ l) others = elim (Bool-cases (str_eq (get_id x) id)) [
    | inl e ↦ inl (
      x,
      rw e,
      record { before = []; after = l; splits = refl; lacks = tt; has = (eq_iff _ _).0 e },
    )
    | inr e ↦
        let other : get_id x ≢ id = λ p. false≢true (sym e ∙ (eq_iff _ _).1 p) in
        elim (find_among_lem id l others) [
          | inl (r, f, first) ↦ inl (
            r,
            rw e f,
            record {
              before = x ∷ first.before;
              after = first.after;
              splits = ap (◌∷◌ x) first.splits;
              lacks = (other, first.lacks);
              has = first.has;
            },
          )
          | inr (f, lacks) ↦ inr (rw e f, (other, lacks))
        ]
  ]

  -- `find_resource` returns the first resource with the id, and an error exactly if the map holds none.
  pub find_resource_lem :
      (id : String) (m : ResourceMap R)
      → ((r : R) × (find_resource c id m ≡ ok r) × IsFirst id (contents m) r)
        ⊎ ((find_resource c id m ≡ unexpected (resource_not_found id)) × Lacks id (contents m))
  find_resource_lem id m = rw (find_resource-contents id m) (find_among_lem id (contents m) _)
