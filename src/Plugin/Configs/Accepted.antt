-- ===== src/Plugin/Configs/Accepted.antt =====
-- What the node makes of the configurations of the elements.
use nmos_sender_receiver_fra.Prelude.{
  ℕ, String, ◌≡◌, inl, inr, true, false, Option, none, some, List, [], ◌∷◌, str_eq, if◌then◌else◌,
  Bool-cases, if_same,
}
use nmos_sender_receiver_fra.Expected.{ok, undefined}
use nmos_sender_receiver_fra.Serialization.SenderId.{synthetize_id}
use nmos_sender_receiver_fra.Serialization.Sender.{
  nmos_sender_from_json, media_from_json, video_sender_info_from_json,
  audio_l24_sender_info_from_json, audio_l16_sender_info_from_json, to_interlace_mode, get_extra,
}
use nmos_sender_receiver_fra.Prelude.Int.{ℤ, pos, wrap}
use nmos_sender_receiver_fra.Json.Api.{JsonApi}
use nmos_sender_receiver_fra.Libraries.{Libraries}
use nmos_sender_receiver_fra.Json.Access.{
  find, get_as, find_or, maybe_find, assign_if, assign_if_or_value,
}
use nmos_sender_receiver_fra.Configuration.{
  NmosReceiver, NmosSender, NetworkLeg, InterlaceMode, video, video_raw, video_info, audio,
  audio_info,
}
use nmos_sender_receiver_fra.Serialization.Common.{
  initialised, nmos_meta_from_json, network_leg_from_json, network_from_json, framerate_from_json,
}
use nmos_sender_receiver_fra.Serialization.Receiver.{
  subscript, format_specific, nmos_receiver_from_json, rtp_mcast,
}
use nmos_sender_receiver_fra.Plugin.Fields.{ConfigFields, NetworkFields}
use nmos_sender_receiver_fra.Plugin.Configs.{
  Writer, create_receiver_config, create_video_sender_config, create_audio_sender_config,
  network_config,
}

-- The first member of the name.
abbrev pub lookup : {A : Type 0} → String → List (String × A) → Option A
lookup key [] = none
lookup key ((k, v) ∷ ms) = let rest = lookup key ms in if str_eq k key then some v else rest

-- The documented behaviour of the values that are made.
pub record Writes (J : JsonApi) (W : Writer J) : Type 0 where
  pub member :
      (ms : List (String × J.Json)) (key : String) → J.find_member (W.object ms) key ≡ lookup key ms
  pub text_string : (s : String) → J.is_string (W.text s) ≡ true
  pub text_null : (s : String) → J.is_null (W.text s) ≡ false
  pub text_get : (s : String) → J.get_string (W.text s) ≡ some s
  pub number_number : (n : ℤ) → J.is_number (W.number n) ≡ true
  pub number_get : (n : ℤ) → J.get_number (W.number n) ≡ some n
  pub number_word : (w : ℕ) (n : ℤ) → J.get_word w (W.number n) ≡ some (wrap w n)
  pub float_of : ℤ → J.Float
  pub number_float : (n : ℤ) → J.get_float (W.number n) ≡ some (float_of n)
  pub array_array : (vs : List J.Json) → J.is_array (W.array vs) ≡ true
  pub array_elements : (vs : List J.Json) → J.elements (W.array vs) ≡ vs

module _ (L : Libraries) (W : Writer (L.json)) (w : Writes (L.json) W) where
  -- The leg of a receiver's configuration.
  abbrev receiver_leg : ConfigFields → NetworkLeg
  receiver_leg config = record {
    rtp_enabled = true;
    source_port = none;
    source_ip = none;
    destination_ip = none;
    destination_port = none;
    interface_name = some config.interface_name;
    interface_ip = some config.address;
  }

  abbrev pub described : ConfigFields → NmosReceiver
  described config = record {
    meta = record { id = config.id; label = config.label; description = config.description };
    master_enable = true;
    sender_id = none;
    sdp_data = none;
    network = record { primary = receiver_leg config; secondary = none };
    protocol = rtp_mcast;
    format = video;
    media_types = video_raw ∷ [];
  }

  -- The node reads the configuration of a video receiver as a receiver of the fields; that of an audio
  -- receiver leads to an access past the end of the capabilities.
  pub create_receiver_config-read :
      (config : ConfigFields)
      → nmos_receiver_from_json L (create_receiver_config L.json W config)
        ≡ (if config.is_audio then undefined else ok (described config))
  unfolding nmos_receiver_from_json create_receiver_config nmos_meta_from_json network_leg_from_json
      network_from_json format_specific find get_as assign_if assign_if_or_value initialised
      subscript
  create_receiver_config-read config = elim (Bool-cases config.is_audio) [
    | inl e ↦
        simp (w.member, w.text_string, w.text_null, w.text_get, w.array_array, w.array_elements, e)
    | inr e ↦
        simp (w.member, w.text_string, w.text_null, w.text_get, w.array_array, w.array_elements, e)
  ]

  abbrev sender_leg : NetworkFields → NetworkLeg
  sender_leg network = record {
    rtp_enabled = true;
    source_port = none;
    source_ip = some network.source_address;
    destination_ip = some network.destination_address;
    destination_port = some network.destination_port;
    interface_name = some network.interface_name;
    interface_ip = none;
  }

  -- The sender of the fields, with the ids of its flow and source, its frame rate and its structure.
  abbrev pub video_sender :
      ConfigFields → String → String → L.Rational → InterlaceMode → NmosSender L
  video_sender config flow source rate mode = record {
    meta = record { id = config.id; label = config.label; description = config.description };
    master_enable = true;
    network = record { primary = sender_leg config.network; secondary = none };
    protocol = rtp_mcast;
    format = video;
    grain_rate = rate;
    media_type = "video/raw";
    source = record { id = source; label = config.label; description = config.description };
    flow = record { id = flow; label = config.label; description = config.description };
    flow_extra = L.web_null;
    media = video_info (record {
      height = config.video_media_fields.height;
      width = config.video_media_fields.width;
      exact_framerate = rate;
      chroma_sub_sampling = config.video_media_fields.sampling;
      structure = mode;
      depth = pos 0;
    });
    payload_type = some 97;
    forced_sdp = none;
    extra = L.web_null;
  }

  -- Where the id ends with a hexadecimal digit, the frame rate is a rational and the structure is known,
  -- the node reads the configuration of a video sender as a sender of the fields.
  pub create_video_sender_config-read :
      (config : ConfigFields) (flow source : String) (rate : L.Rational) (mode : InterlaceMode)
      → synthetize_id config.id 1 ≡ ok flow
      → synthetize_id config.id 2 ≡ ok source
      → L.make_rational config.video_media_fields.frame_rate_num
          config.video_media_fields.frame_rate_den
        ≡ some rate
      → to_interlace_mode config.video_media_fields.structure ≡ ok mode
      → nmos_sender_from_json L (create_video_sender_config L.json W config)
        ≡ ok (video_sender config flow source rate mode)
  unfolding nmos_sender_from_json create_video_sender_config network_config nmos_meta_from_json
      network_leg_from_json network_from_json media_from_json video_sender_info_from_json
      framerate_from_json find get_as find_or maybe_find assign_if assign_if_or_value initialised
      get_extra
  create_video_sender_config-read config flow source rate mode f s r m = simp (
    w.member, w.text_string, w.text_null, w.text_get, w.number_number, w.number_get, w.number_word,
    f, s, r, m,
  )

  abbrev pub audio_sender : ConfigFields → String → String → String → ℕ → NmosSender L
  audio_sender config flow source media_type bits = record {
    meta = record { id = config.id; label = config.label; description = config.description };
    master_enable = true;
    network = record { primary = sender_leg config.network; secondary = none };
    protocol = rtp_mcast;
    format = audio;
    grain_rate = L.of_int config.audio_sender_fields.sampling_rate;
    media_type = media_type;
    source = record { id = source; label = config.label; description = config.description };
    flow = record { id = flow; label = config.label; description = config.description };
    flow_extra = L.web_null;
    media = audio_info (record {
      number_of_channels = config.audio_sender_fields.number_of_channels;
      bits_per_sample = bits;
      sampling_rate = config.audio_sender_fields.sampling_rate;
      packet_time = w.float_of config.audio_sender_fields.packet_time;
    });
    payload_type = some 97;
    forced_sdp = none;
    extra = L.web_null;
  }

  -- Where the id ends with a hexadecimal digit, the node reads the configuration of an audio sender as a
  -- sender of the fields, of 24 bits for the format S24BE and of 16 bits for every other one.
  pub create_audio_sender_config-read :
      (config : ConfigFields) (flow source : String)
      → synthetize_id config.id 1 ≡ ok flow
      → synthetize_id config.id 2 ≡ ok source
      → nmos_sender_from_json L (create_audio_sender_config L.json W config)
        ≡ ok (
            if str_eq config.audio_sender_fields.format "S24BE"
            then audio_sender config flow source "audio/L24" 24
            else audio_sender config flow source "audio/L16" 16)
  unfolding nmos_sender_from_json create_audio_sender_config network_config nmos_meta_from_json
      network_leg_from_json network_from_json media_from_json audio_l24_sender_info_from_json
      audio_l16_sender_info_from_json find get_as find_or maybe_find assign_if assign_if_or_value
      initialised get_extra
  create_audio_sender_config-read config flow source f s =
      elim (Bool-cases (str_eq config.audio_sender_fields.format "S24BE")) [
        | inl e ↦ simp (
          w.member, w.text_string, w.text_null, w.text_get, w.number_number, w.number_get,
          w.number_word, w.number_float, f, s, e,
        )
        | inr e ↦ simp (
          w.member,
          w.text_string,
          w.text_null,
          w.text_get,
          w.number_number,
          w.number_get,
          w.number_word,
          w.number_float,
          f,
          s,
          e,
          if_same {A = String} (str_eq config.audio_sender_fields.format "S16BE") "audio/L16",
        )
      ]
