-- ===== src/Context/EventHandler.antt =====
-- context/nmos_event_handler.cpp: the events of the NMOS node that reach the client's resources. The
-- objects are shared, and each stands in the map once, so an object that a handler changes is changed
-- in the map.
pub mod Activation
use nmos_sender_receiver_fra.Prelude.{
  String, Bool, Option, none, some, List, [], ◌∷◌, str_eq, if◌then◌else◌,
}
use nmos_sender_receiver_fra.Expected.{Expected, ok, ◌>>=◌, ◌>>◌}
use nmos_sender_receiver_fra.Libraries.{Libraries}
use nmos_sender_receiver_fra.Json.Access.{or_thrown}
use nmos_sender_receiver_fra.Context.ResourceMap.{ResourceMap, find_resource}
use nmos_sender_receiver_fra.Context.Resource.{
  Resource, Call, SdpInfo, get_id, resource_class, handle_patch, handle_activation,
  handle_sdp_info_request,
}

module _ (L : Libraries) where
  open L use {Json, parse}

  -- The resources, and the calls of callbacks, the last one first.
  pub record Context : Type 0 where
    pub resources : ResourceMap (Resource L)
    pub calls : List (Call L)

  also : Resource L → Option (List (Resource L)) → Option (List (Resource L))
  also x none = none
  also x (some rs) = some (x ∷ rs)

  -- The first object of the id is changed; `rest` stands for the other devices.
  store_among : String → Resource L → List (Resource L) → Option (List (Resource L))
  store_among id r [] = none
  store_among id r (x ∷ xs) =
      let rest = also x (store_among id r xs) in
      if str_eq (get_id L x) id then some (r ∷ xs) else rest

  stored :
      String
      → List (Resource L)
      → Option (List (Resource L))
      → ResourceMap (Resource L)
      → ResourceMap (Resource L)
      → ResourceMap (Resource L)
  stored k rs (some rs') m m' = (k, rs') ∷ m
  stored k rs none m m' = (k, rs) ∷ m'

  pub store : String → Resource L → ResourceMap (Resource L) → ResourceMap (Resource L)
  store id r [] = []
  store id r ((k, rs) ∷ m) = stored k rs (store_among id r rs) m (store id r m)

  -- `master_enable` is what `connection_resource.data` holds at endpoint_staged, master_enable; none is
  -- the exception of its absence.
  unfoldable pub handle_active_state_changed :
      String → Option Bool → String → Context → Expected (String × Context)
  handle_active_state_changed id master_enable transport_params c = do
    enable ← or_thrown master_enable
    r ← find_resource (resource_class L) id c.resources
    tp ← or_thrown (parse transport_params)
    let (r', call) = handle_activation L enable tp r
    ok (transport_params, record { resources = store id r' c.resources; calls = call ∷ c.calls })

  unfoldable pub handle_patch_request : String → Option Bool → String → Context → Expected Context
  handle_patch_request id master_enable endpoint_staged c = do
    enable ← or_thrown master_enable
    r ← find_resource (resource_class L) id c.resources
    configuration ← or_thrown (parse endpoint_staged)
    r' ← handle_patch L enable configuration r
    ok (record c { resources = store id r' c.resources })

  unfoldable pub handle_sdp_info : String → Context → Expected (SdpInfo L)
  handle_sdp_info id c = do
    r ← find_resource (resource_class L) id c.resources
    handle_sdp_info_request L r
