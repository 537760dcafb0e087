-- ===== src/Plugin/Params.antt =====
-- What the elements' activation callbacks read of the transport parameters.
use nmos_sender_receiver_fra.Prelude.{
  String, Bool, false, Option, none, some, List, [], ◌∷◌, if◌then◌else◌,
}
use nmos_sender_receiver_fra.Expected.{Expected, ok}
use nmos_sender_receiver_fra.Json.Api.{JsonApi}
use nmos_sender_receiver_fra.Json.Access.{or_thrown}

module _ (J : JsonApi) where
  open J use {Json, find_member, is_array, get_boolean, elements}

  head : List Json → Option Json
  head [] = none
  head (v ∷ vs) = some v

  -- `param`, which stays null where there are no parameters.
  unfoldable pub first_param : Json → Option Json
  unfolding head
  first_param transport_params =
      if is_array transport_params then head (elements transport_params) else none

  -- param.contains(key) and param[key], for no parameters too.
  abbrev pub member : Option Json → String → Option Json
  member none key = none
  member (some param) key = find_member param key

  enabled_by : Option Json → Expected Bool
  enabled_by none = ok false
  enabled_by (some v) = or_thrown (get_boolean v)

  unfoldable pub rtp_enabled : Option Json → Expected Bool
  unfolding enabled_by
  rtp_enabled param = enabled_by (member param "rtp_enabled")
