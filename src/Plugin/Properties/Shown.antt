-- ===== src/Plugin/Properties/Shown.antt =====
-- What the properties show of what was set.
use nmos_sender_receiver_fra.Prelude.{
  ℕ, zero, suc, String, ◌≡◌, refl, Option, none, some, List, [], ◌∷◌, map, ap,
}
use nmos_sender_receiver_fra.Prelude.Int.{ℤ}
use nmos_sender_receiver_fra.Expected.{Expected, ok, ◌>>=◌}
use nmos_sender_receiver_fra.Plugin.Fields.{ConfigFields}
use nmos_sender_receiver_fra.Plugin.Sender.{SenderElement}
use nmos_sender_receiver_fra.Plugin.Properties.{
  node_id, node_config_file_location, device_id, device_label, device_description, element_id,
  element_label, element_description, SenderPropertyId, of_sender, source_address, interface_name,
  destination_address, destination_port, ReceiverPropertyId, of_receiver, dst_address, number,
  sender_number, receiver_number, numbered, set_common, get_common, text_of, set_known, set_found,
  set_property, get_found, get_property, receiver_set_found, receiver_get_found,
  receiver_set_property, receiver_get_property,
}

-- The numbers of properties, 1 to 9 and 1 to 12.
abbrev receiver_numbers : List ℕ
receiver_numbers = 1 ∷ 2 ∷ 3 ∷ 4 ∷ 5 ∷ 6 ∷ 7 ∷ 8 ∷ 9 ∷ []

abbrev sender_numbers : List ℕ
sender_numbers = 1 ∷ 2 ∷ 3 ∷ 4 ∷ 5 ∷ 6 ∷ 7 ∷ 8 ∷ 9 ∷ 10 ∷ 11 ∷ 12 ∷ []

-- What all properties show, each in an empty value.
abbrev pub sender_shows : SenderElement → List (Option String)
sender_shows self = map (λ n. get_property n none self) sender_numbers

abbrev pub receiver_shows : ConfigFields → List (Option String)
receiver_shows config = map (λ n. receiver_get_property n none config) receiver_numbers

-- The list with another item at a place, counted from 1.
abbrev pub put {ℓ} : {A : Type ℓ} → ℕ → A → List A → List A
put n a [] = []
put zero a (x ∷ xs) = x ∷ xs
put (suc zero) a (x ∷ xs) = a ∷ xs
put (suc (suc n)) a (x ∷ xs) = x ∷ put (suc n) a xs

-- What is shown once a text is set: the port is shown as it was before, so not at all.
abbrev pub showing : SenderPropertyId → String → List (Option String) → List (Option String)
showing destination_port t shown = shown
showing id t shown = put (sender_number id) (some t) shown

-- Where the data go: the port in the configuration, and the host, the port and the address that
-- udpsink has.
abbrev pub sends : SenderElement → ℤ × String × ℤ × Option String
sends s = (s.config.network.destination_port, s.host, s.port, s.bind_address)

-- Where they go once a text is set, whose number is `port`.
abbrev pub sending : SenderPropertyId → String → ℤ → SenderElement → ℤ × String × ℤ × Option String
sending interface_name t port s = (s.config.network.destination_port, s.host, s.port, some t)
sending destination_address t port s =
    (s.config.network.destination_port, t, s.port, s.bind_address)
sending destination_port t port s = (port, s.host, port, s.bind_address)
sending id t port s = sends s

-- A text that atoi reads is set as any property of the sender: that property shows it and every other
-- one shows what it showed before, but for the port, which no property shows. An address, a port and an
-- interface are those that udpsink then has, the port is also in the configuration, and the others
-- change nothing of these.
pub set_property-shows :
    (atoi : String → Expected ℤ) (id : SenderPropertyId) (t : String) (port : ℤ)
    (self : SenderElement)
    → atoi t ≡ ok port
    → (new : SenderElement) × (set_property atoi (sender_number id) (some t) self ≡ ok new)
      × (sender_shows new ≡ showing id t (sender_shows self))
      × (sends new ≡ sending id t port self)
unfolding set_property set_found set_known set_common get_property get_found get_common numbered
    text_of sender_number number
set_property-shows atoi (of_sender node_id) t port self e = (_, refl, refl, refl)
set_property-shows atoi (of_sender node_config_file_location) t port self e = (_, refl, refl, refl)
set_property-shows atoi (of_sender device_id) t port self e = (_, refl, refl, refl)
set_property-shows atoi (of_sender device_label) t port self e = (_, refl, refl, refl)
set_property-shows atoi (of_sender device_description) t port self e = (_, refl, refl, refl)
set_property-shows atoi (of_sender element_id) t port self e = (_, refl, refl, refl)
set_property-shows atoi (of_sender element_label) t port self e = (_, refl, refl, refl)
set_property-shows atoi (of_sender element_description) t port self e = (_, refl, refl, refl)
set_property-shows atoi source_address t port self e = (_, refl, refl, refl)
set_property-shows atoi interface_name t port self e = (_, refl, refl, refl)
set_property-shows atoi destination_address t port self e = (_, refl, refl, refl)
set_property-shows atoi destination_port t port self e = (
  record self {
    config = record self.config {
      network = record self.config.network { destination_port = port };
    };
    port = port;
  },
  ap
      (λ r. r >>= λ n. ok (record self {
        config = record self.config {
          network = record self.config.network { destination_port = n };
        };
        port = n;
      }))
      e,
  refl,
  refl,
)

-- A text that is set as a receiver's property is shown by that property and by no other.
pub receiver_set_property-shows :
    (id : ReceiverPropertyId) (t : String) (config : ConfigFields)
    → (new : ConfigFields) × (receiver_set_property (receiver_number id) (some t) config ≡ ok new)
      × (receiver_shows new ≡ put (receiver_number id) (some t) (receiver_shows config))
unfolding receiver_set_property receiver_set_found set_common receiver_get_property
    receiver_get_found get_common numbered text_of receiver_number number
receiver_set_property-shows (of_receiver node_id) t config = (_, refl, refl)
receiver_set_property-shows (of_receiver node_config_file_location) t config = (_, refl, refl)
receiver_set_property-shows (of_receiver device_id) t config = (_, refl, refl)
receiver_set_property-shows (of_receiver device_label) t config = (_, refl, refl)
receiver_set_property-shows (of_receiver device_description) t config = (_, refl, refl)
receiver_set_property-shows (of_receiver element_id) t config = (_, refl, refl)
receiver_set_property-shows (of_receiver element_label) t config = (_, refl, refl)
receiver_set_property-shows (of_receiver element_description) t config = (_, refl, refl)
receiver_set_property-shows dst_address t config = (_, refl, refl)
