-- ===== src/Context/ResourceMap.antt =====
-- context/resource_map.cpp: the resources of each device. The mutex makes each operation one step.
-- The unordered map from device ids is a list of its entries in the order in which a loop meets
-- them, a new key last; this order is not specified, and no theorem depends on where a key stands.
pub mod Contents
pub mod Erase
use nmos_sender_receiver_fra.Prelude.{
  String, Bool, true, false, List, [], ◌∷◌, ◌++◌, str_eq, if◌then◌else◌,
}
use nmos_sender_receiver_fra.Expected.{Expected, resource_not_found, ok, unexpected}

-- nmos::type
pub data ResourceType : Type 0 where
  node device source flow sender receiver : ResourceType

unfoldable pub type_eq : ResourceType → ResourceType → Bool
type_eq node node = true
type_eq device device = true
type_eq source source = true
type_eq flow flow = true
type_eq sender sender = true
type_eq receiver receiver = true
type_eq _ _ = false

-- The virtual functions of nmos_resource_t that the map calls.
pub record IsResource (R : Type 0) : Type 0 where
  pub get_id : R → String
  pub get_resource_type : R → ResourceType

abbrev pub ResourceMap : Type 0 → Type 0
ResourceMap R = List (String × List R)

module _ {R : Type 0} (c : IsResource R) where
  open c use {get_id, get_resource_type}

  unfoldable pub insert : String → R → ResourceMap R → ResourceMap R
  insert id entry [] = (id, entry ∷ []) ∷ []
  insert id entry ((k, rs) ∷ m) =
      if str_eq k id then (k, rs ++ entry ∷ []) ∷ m else (k, rs) ∷ insert id entry m

  -- map_.find(id), map_.erase(it)
  unfoldable pub erase_key : String → ResourceMap R → ResourceMap R
  erase_key id [] = []
  erase_key id ((k, rs) ∷ m) = if str_eq k id then m else (k, rs) ∷ erase_key id m

  -- erase(remove_if(...), end()) on the resources of one device.
  unfoldable pub remove_id : String → List R → List R
  remove_id id [] = []
  remove_id id (r ∷ rs) =
      let rest = remove_id id rs in if str_eq (get_id r) id then rest else r ∷ rest

  unfoldable pub remove_everywhere : String → ResourceMap R → ResourceMap R
  unfolding remove_id
  remove_everywhere id [] = []
  remove_everywhere id ((k, rs) ∷ m) = (k, remove_id id rs) ∷ remove_everywhere id m

  unfoldable pub erase : String → ResourceMap R → ResourceMap R
  erase id m = remove_everywhere id (erase_key id m)

  -- The inner loop, followed by the other devices.
  unfoldable pub find_among : String → List R → Expected R → Expected R
  find_among id [] others = others
  find_among id (r ∷ rs) others =
      let rest = find_among id rs others in if str_eq (get_id r) id then ok r else rest

  unfoldable pub find_resource : String → ResourceMap R → Expected R
  unfolding find_among
  find_resource id [] = unexpected (resource_not_found id)
  find_resource id ((k, rs) ∷ m) = find_among id rs (find_resource id m)

  ids_among : ResourceType → List R → List String
  ids_among t [] = []
  ids_among t (r ∷ rs) =
      let rest = ids_among t rs in if type_eq (get_resource_type r) t then get_id r ∷ rest else rest

  ids_of : ResourceType → ResourceMap R → List String
  ids_of t [] = []
  ids_of t ((k, rs) ∷ m) = ids_among t rs ++ ids_of t m

  unfoldable pub get_sender_ids : ResourceMap R → List String
  unfolding ids_of ids_among
  get_sender_ids = ids_of sender

  unfoldable pub get_receiver_ids : ResourceMap R → List String
  unfolding ids_of ids_among
  get_receiver_ids = ids_of receiver
