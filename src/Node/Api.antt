-- ===== src/Node/Api.antt =====
-- The operations of nmos-cpp on its resources that the controller calls. The library is not part of the
-- repository, so they are parameters.
use nmos_sender_receiver_fra.Prelude.{ℕ, String, Bool, Option, List}
use nmos_sender_receiver_fra.Libraries.{Libraries}
use nmos_sender_receiver_fra.Context.ResourceMap.{ResourceType}

module _ (L : Libraries) where
  open L use {Web}

  pub record Nmos : Type 1 where
    -- nmos::resource and its id, type, sub_resources and data
    pub Item : Type 0
    pub item_id : Item → String
    pub item_type : Item → ResourceType
    pub sub_resources : Item → List String
    pub item_data : Item → Web
    pub with_data : Item → Web → Item
    -- data[key] = v, web::json::value_from_elements
    pub set_field : Web → String → Web → Web
    pub of_elements : List String → Web
    -- data[version] = make_version()
    pub versioned : Item → Item
    -- nmos::resources
    pub Store : Type 0
    -- nmos::insert_resource, nmos::modify_resource: the store, and whether it was done
    pub insert_resource : Store → Item → Store × Bool
    pub modify_resource : Store → String → (Item → Item) → Store × Bool
    -- nmos::erase_resource(resources, id, false) and its count, nmos::forget_erased_resources
    pub erase_resource : Store → String → Store × ℕ
    pub forget_erased_resources : Store → Store
    -- nmos::find_resource, none for end(), and nmos::has_resource
    pub find_resource : Store → String → Option Item
    pub has_resource : Store → String → ResourceType → Bool
