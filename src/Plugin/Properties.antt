-- ===== src/Plugin/Properties.antt =====
-- The properties of the elements: set_property and get_property of gst_nmos_sender_plugin.cpp and of
-- the two receivers. Every property is installed as one of texts; `none` is a null pointer.
pub mod Shown
use nmos_sender_receiver_fra.Prelude.{
  ℕ, zero, suc, String, Option, none, some, List, [], ◌∷◌, get_elem?,
}
use nmos_sender_receiver_fra.Prelude.Int.{ℤ}
use nmos_sender_receiver_fra.Expected.{Expected, ok, undefined, ◌>>=◌}
use nmos_sender_receiver_fra.Plugin.Fields.{ConfigFields}
use nmos_sender_receiver_fra.Plugin.Sender.{SenderElement}

-- The properties 1 to 8, which all elements have.
pub data CommonId : Type 0 where
  node_id node_config_file_location device_id device_label device_description : CommonId
  element_id element_label element_description : CommonId

-- PropertyId of the sender and of the receivers
pub data SenderPropertyId : Type 0 where
  of_sender : CommonId → SenderPropertyId
  source_address interface_name destination_address destination_port : SenderPropertyId

pub data ReceiverPropertyId : Type 0 where
  of_receiver : CommonId → ReceiverPropertyId
  dst_address : ReceiverPropertyId

pub number : CommonId → ℕ
number node_id = 1
number node_config_file_location = 2
number device_id = 3
number device_label = 4
number device_description = 5
number element_id = 6
number element_label = 7
number element_description = 8

pub sender_number : SenderPropertyId → ℕ
unfolding number
sender_number (of_sender id) = number id
sender_number source_address = 9
sender_number interface_name = 10
sender_number destination_address = 11
sender_number destination_port = 12

pub receiver_number : ReceiverPropertyId → ℕ
unfolding number
receiver_number (of_receiver id) = number id
receiver_number dst_address = 9

-- The property of a number, of a list of the properties from 1 on.
numbered : {A : Type 0} → List A → ℕ → Option A
numbered ids zero = none
numbered ids (suc n) = get_elem? ids n

abbrev sender_ids : List SenderPropertyId
sender_ids =
    of_sender node_id
    ∷ of_sender node_config_file_location
    ∷ of_sender device_id
    ∷ of_sender device_label
    ∷ of_sender device_description
    ∷ of_sender element_id
    ∷ of_sender element_label
    ∷ of_sender element_description
    ∷ source_address
    ∷ interface_name
    ∷ destination_address
    ∷ destination_port
    ∷ []

abbrev receiver_ids : List ReceiverPropertyId
receiver_ids =
    of_receiver node_id
    ∷ of_receiver node_config_file_location
    ∷ of_receiver device_id
    ∷ of_receiver device_label
    ∷ of_receiver device_description
    ∷ of_receiver element_id
    ∷ of_receiver element_label
    ∷ of_receiver element_description
    ∷ dst_address
    ∷ []

set_common : CommonId → String → ConfigFields → ConfigFields
set_common node_id t c = record c { node = record c.node { id = t } }
set_common node_config_file_location t c = record c {
  node = record c.node { configuration_location = t };
}
set_common device_id t c = record c { device = record c.device { id = t } }
set_common device_label t c = record c { device = record c.device { label = t } }
set_common device_description t c = record c { device = record c.device { description = t } }
set_common element_id t c = record c { id = t }
set_common element_label t c = record c { label = t }
set_common element_description t c = record c { description = t }

get_common : CommonId → ConfigFields → String
get_common node_id c = c.node.id
get_common node_config_file_location c = c.node.configuration_location
get_common device_id c = c.device.id
get_common device_label c = c.device.label
get_common device_description c = c.device.description
get_common element_id c = c.id
get_common element_label c = c.label
get_common element_description c = c.description

-- A std::string of g_value_dup_string, whose null pointer has no defined behaviour.
text_of : Option String → Expected String
text_of none = undefined
text_of (some t) = ok t

-- `atoi` is the C library's.
set_known :
    (String → Expected ℤ) → SenderPropertyId → String → SenderElement → Expected SenderElement
unfolding set_common
set_known atoi (of_sender id) t self = ok (record self { config = set_common id t self.config })
set_known atoi source_address t self = ok (record self {
  config = record self.config { network = record self.config.network { source_address = t } };
})
set_known atoi interface_name t self = ok (record self {
  config = record self.config { network = record self.config.network { interface_name = t } };
  bind_address = some t;
})
set_known atoi destination_address t self = ok (record self {
  config = record self.config { network = record self.config.network { destination_address = t } };
  host = t;
})
set_known atoi destination_port t self = do
  port ← atoi t
  ok (record self {
    config = record self.config {
      network = record self.config.network { destination_port = port };
    };
    port = port;
  })

set_found :
    (String → Expected ℤ)
    → Option SenderPropertyId
    → Option String
    → SenderElement
    → Expected SenderElement
unfolding set_known text_of
set_found atoi none value self = ok self
set_found atoi (some id) value self = do t ← text_of value; set_known atoi id t self

-- gst_nmossender_set_property
unfoldable pub set_property :
    (String → Expected ℤ) → ℕ → Option String → SenderElement → Expected SenderElement
unfolding set_found numbered
set_property atoi property_id value self =
    set_found atoi (numbered sender_ids property_id) value self

-- g_value_set_int leaves a value of a text as it is.
get_found : Option SenderPropertyId → Option String → SenderElement → Option String
unfolding get_common
get_found none value self = value
get_found (some (of_sender id)) value self = some (get_common id self.config)
get_found (some source_address) value self = some self.config.network.source_address
get_found (some interface_name) value self = some self.config.network.interface_name
get_found (some destination_address) value self = some self.config.network.destination_address
get_found (some destination_port) value self = value

-- gst_nmossender_get_property, of a value that held `value`.
unfoldable pub get_property : ℕ → Option String → SenderElement → Option String
unfolding get_found numbered
get_property property_id value self = get_found (numbered sender_ids property_id) value self

receiver_set_found : Option ReceiverPropertyId → String → ConfigFields → ConfigFields
unfolding set_common
receiver_set_found none t config = config
receiver_set_found (some (of_receiver id)) t config = set_common id t config
receiver_set_found (some dst_address) t config = record config { address = t }

receiver_get_found : Option ReceiverPropertyId → Option String → ConfigFields → Option String
unfolding get_common
receiver_get_found none value config = value
receiver_get_found (some (of_receiver id)) value config = some (get_common id config)
receiver_get_found (some dst_address) value config = some config.address

-- gst_nmosvideoreceiver_set_property, which that of audio equals: a number of no property is ignored.
unfoldable pub receiver_set_property : ℕ → Option String → ConfigFields → Expected ConfigFields
unfolding receiver_set_found numbered text_of
receiver_set_property property_id value config = elim (numbered receiver_ids property_id) [
  | none ↦ ok config
  | some id ↦ text_of value >>= λ t. ok (receiver_set_found (some id) t config)
]

unfoldable pub receiver_get_property : ℕ → Option String → ConfigFields → Option String
unfolding receiver_get_found numbered
receiver_get_property property_id value config =
    receiver_get_found (numbered receiver_ids property_id) value config
