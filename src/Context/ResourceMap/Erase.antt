-- ===== src/Context/ResourceMap/Erase.antt =====
-- Erasing devices, senders and receivers.
use nmos_sender_receiver_fra.Prelude.{String, ◌≡◌, refl, false, List, [], ◌∷◌, ◌++◌, arith, str_eq}
use nmos_sender_receiver_fra.Expected.{Expected, resource_not_found, unexpected}
use nmos_sender_receiver_fra.Context.ResourceMap.{
  IsResource, ResourceMap, erase_key, remove_id, remove_everywhere, erase, find_among,
  find_resource,
}
use nmos_sender_receiver_fra.Context.ResourceMap.Contents.{contents, find_resource-contents}

-- No device has the id.
abbrev pub NoDevice : {R : Type 0} → String → ResourceMap R → Type 0
NoDevice id [] = Unit
NoDevice id ((k, rs) ∷ m) = (str_eq k id ≡ false) × NoDevice id m

module _ {R : Type 0} (c : IsResource R) where
  open c use {get_id}

  remove_id-append :
      (id : String) (xs ys : List R)
      → remove_id c id (xs ++ ys) ≡ remove_id c id xs ++ remove_id c id ys
  unfolding remove_id
  remove_id-append id [] ys = refl
  remove_id-append id (x ∷ xs) ys = ground (arith, remove_id-append id xs ys)

  contents-remove_everywhere :
      (id : String) (m : ResourceMap R)
      → contents (remove_everywhere c id m) ≡ remove_id c id (contents m)
  unfolding remove_everywhere
  contents-remove_everywhere id [] = refl
  contents-remove_everywhere id ((k, rs) ∷ m) =
      rw (remove_id-append id rs (contents m), contents-remove_everywhere id m)

  find_among-remove_id :
      (id : String) (l : List R) (others : Expected R)
      → find_among c id (remove_id c id l) others ≡ others
  unfolding find_among remove_id
  find_among-remove_id id [] others = refl
  find_among-remove_id id (x ∷ l) others = ground (arith, find_among-remove_id id l others)

  -- After an erasure no resource has the id, whatever the map was.
  pub find_resource-erase :
      (id : String) (m : ResourceMap R)
      → find_resource c id (erase c id m) ≡ unexpected (resource_not_found id)
  unfolding erase
  find_resource-erase id m = rw (
    find_resource-contents c id (remove_everywhere c id (erase_key c id m)),
    contents-remove_everywhere id (erase_key c id m),
    find_among-remove_id id (contents (erase_key c id m)) (unexpected (resource_not_found id)),
  )
