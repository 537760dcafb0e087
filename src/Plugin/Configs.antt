-- ===== src/Plugin/Configs.antt =====
-- utils.cpp: the configurations that the elements give to the node. The construction of JSON values,
-- their text and the contents of files are not part of the repository, so they are parameters.
pub mod Accepted
use nmos_sender_receiver_fra.Prelude.{
  String, Option, none, some, List, [], ◌∷◌, str_eq, if◌then◌else◌,
}
use nmos_sender_receiver_fra.Prelude.Int.{ℤ, pos, wrap}
use nmos_sender_receiver_fra.Expected.{
  Expected, other, ok, unexpected, thrown, undefined, ◌>>=◌, ◌>>◌,
}
use nmos_sender_receiver_fra.Json.Api.{JsonApi}
use nmos_sender_receiver_fra.Json.Access.{read_text, read_json, or_thrown, find}
use nmos_sender_receiver_fra.Plugin.Fields.{ConfigFields, NetworkFields}

-- The media type of a format of GStreamer.
abbrev pub audio_media_type : String → String
audio_media_type format =
    if str_eq format "S24BE"
    then "audio/L24"
    else if str_eq format "S16BE"
    then "audio/L16"
    else "audio/L16"

module _ (J : JsonApi) where
  open J use {Json}

  -- nlohmann::json: values from texts and integers, arrays, objects from their members, j[key] = v,
  -- dump and parse, which may throw; and the contents of the files that can be opened.
  pub record Writer : Type 0 where
    pub text : String → Json
    pub number : ℤ → Json
    pub array : List Json → Json
    pub object : List (String × Json) → Json
    pub set_member : Json → String → Json → Json
    pub dump : Json → String
    pub parse : String → Option Json
    pub contents : String → Option String

  module _ (W : Writer) where
    open W use {text, number, array, object, set_member, dump, parse, contents}

    -- load_configuration_from_file; parse_json turns the exception into an error.
    parsed : Option Json → Expected Json
    parsed none = unexpected (other "invalid JSON")
    parsed (some j) = ok j

    opened : Option String → Expected Json
    unfolding parsed
    opened none = unexpected (other "Failed opening file")
    opened (some s) = parsed (parse s)

    unfoldable pub load_configuration_from_file : String → Expected Json
    unfolding opened
    load_configuration_from_file location = opened (contents location)

    -- value() of a result throws where there is none.
    value_of : {A : Type 0} → Expected A → Expected A
    value_of (ok a) = ok a
    value_of (unexpected e) = thrown
    value_of thrown = thrown
    value_of undefined = undefined

    -- Both results are looked at once both calls have returned.
    both : (String → Json → String) → Expected String → Expected Json → Expected String
    both f (ok id) (ok configuration) = ok (f id configuration)
    both f thrown configuration = thrown
    both f undefined configuration = undefined
    both f id thrown = thrown
    both f id undefined = undefined
    both f id configuration = ok ""

    -- What both functions of a node's file do with the file.
    node_text : (String → Json → String) → Json → Expected String
    unfolding value_of both
    node_text f configuration = do
      node ← value_of (find J (read_json J) configuration "node")
      both f (find J (read_text J) node "id") (find J (read_json J) node "configuration")

    unfoldable pub get_node_id : String → Expected String
    unfolding value_of node_text
    get_node_id location = do
      configuration ← value_of (load_configuration_from_file location)
      node_text (λ id configuration. id) configuration

    of_loaded : Expected Json → Expected String
    unfolding node_text
    of_loaded (ok configuration) = node_text (λ id configuration. dump configuration) configuration
    of_loaded (unexpected e) = ok ""
    of_loaded thrown = thrown
    of_loaded undefined = undefined

    unfoldable pub get_node_config : String → Expected String
    unfolding of_loaded
    get_node_config location = of_loaded (load_configuration_from_file location)

    -- null is none.
    unfoldable pub create_node_config : ConfigFields → Expected (Option Json)
    create_node_config config = do
      node_config_str ← get_node_config config.node.configuration_location
      if str_eq node_config_str "" then ok none else (do
        node_config ← or_thrown (parse node_config_str)
        ok (some (set_member node_config "id" (text config.node.id))))

    -- The device and its id, which get_device_id and get_device_config return.
    device_at : String → Expected (Json × String)
    unfolding value_of
    device_at location = do
      configuration ← value_of (load_configuration_from_file location)
      device ← value_of (find J (read_json J) configuration "device")
      id ← value_of (find J (read_text J) device "id")
      ok (device, id)

    unfoldable pub get_device_id : String → Expected String
    unfolding device_at
    get_device_id location = do (device, id) ← device_at location; ok id

    unfoldable pub get_device_config : String → Expected String
    unfolding device_at
    get_device_config location = do (device, id) ← device_at location; ok (dump device)

    unfoldable pub get_sender_config : String → Expected String
    unfolding value_of
    get_sender_config location = do
      configuration ← value_of (load_configuration_from_file location)
      ok (dump configuration)

    unfoldable pub create_device_config : ConfigFields → Json
    create_device_config config = object (
        ("id", text config.device.id)
        ∷ ("label", text config.device.label)
        ∷ ("description", text config.device.description)
        ∷ [])

    unfoldable pub create_receiver_config : ConfigFields → Json
    create_receiver_config config =
        let caps = if config.is_audio then "audio/L24" else "video/raw" in
        object (
          ("id", text config.id)
          ∷ ("label", text config.label)
          ∷ ("description", text config.description)
          ∷ (
            "network",
            object (
                (
                  "primary",
                  object (
                      ("interface_address", text config.address)
                      ∷ ("interface_name", text config.interface_name)
                      ∷ []),
                )
                ∷ []),
          )
          ∷ ("capabilities", array (text caps ∷ []))
          ∷ [])

    network_config : NetworkFields → Json
    network_config network = object (
        (
          "primary",
          object (
              ("source_address", text network.source_address)
              ∷ ("interface_name", text network.interface_name)
              ∷ ("destination_address", text network.destination_address)
              ∷ ("destination_port", number network.destination_port)
              ∷ []),
        )
        ∷ [])

    unfoldable pub create_video_sender_config : ConfigFields → Json
    unfolding network_config
    create_video_sender_config config =
        let media = config.video_media_fields in
        object (
          ("id", text config.id)
          ∷ ("label", text config.label)
          ∷ ("description", text config.description)
          ∷ ("network", network_config config.network)
          ∷ ("payload_type", number (pos 97))
          ∷ ("media_type", text "video/raw")
          ∷ (
            "media",
            object (
                ("width", number media.width)
                ∷ ("height", number media.height)
                ∷ (
                  "frame_rate",
                  object (
                      ("num", number media.frame_rate_num)
                      ∷ ("den", number media.frame_rate_den)
                      ∷ []),
                )
                ∷ ("sampling", text media.sampling)
                ∷ ("structure", text media.structure)
                ∷ []),
          )
          ∷ [])

    unfoldable pub create_audio_sender_config : ConfigFields → Json
    unfolding network_config
    create_audio_sender_config config =
        let media = config.audio_sender_fields in
        object (
          ("id", text config.id)
          ∷ ("label", text config.label)
          ∷ ("description", text config.description)
          ∷ ("network", network_config config.network)
          ∷ ("payload_type", number (pos 97))
          ∷ ("media_type", text (audio_media_type media.format))
          ∷ (
            "media",
            object (
                ("number_of_channels", number media.number_of_channels)
                ∷ ("sampling_rate", number media.sampling_rate)
                ∷ ("packet_time", number media.packet_time)
                ∷ []),
          )
          ∷ [])
