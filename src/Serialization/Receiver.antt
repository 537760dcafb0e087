-- ===== src/Serialization/Receiver.antt =====
-- receiver.cpp: the configuration of a receiver.
pub mod VideoOnly
use nmos_sender_receiver_fra.Prelude.{
  ℕ, String, true, false, Option, none, some, List, [], ◌∷◌, str_eq, ◌==◌, if◌then◌else◌, length,
  get_elem?,
}
use nmos_sender_receiver_fra.Expected.{
  Expected, capabilities_not_array, capabilities_not_one, capability_not_supported,
  transport_file_not_sdp, ok, unexpected, undefined, ◌>>=◌, ◌>>◌, enforce,
}
use nmos_sender_receiver_fra.Libraries.{Libraries}
use nmos_sender_receiver_fra.Json.Access.{
  read_text, read_boolean, read_json, or_thrown, find, assign_if, assign_if_or_value,
}
use nmos_sender_receiver_fra.Configuration.{
  Format, video, audio, MediaType, video_raw, audio_L, empty_meta, NmosReceiver,
}
use nmos_sender_receiver_fra.Serialization.Common.{nmos_meta_from_json, network_from_json}

abbrev pub rtp_mcast : String
rtp_mcast = "urn:x-nmos:transport:rtp.mcast"

-- c[i] on a vector: an index past the end has no defined behaviour.
unfoldable pub subscript {ℓ} : {A : Type ℓ} → List A → ℕ → Expected A
subscript c i = elim (get_elem? c i) [ none ↦ undefined | some a ↦ ok a ]

-- A second media type if the second capability is not empty.
with_second : List String → MediaType → MediaType → Expected (List MediaType)
with_second c first second = do
  second_capability ← subscript c 1
  if str_eq second_capability "" then ok (first ∷ []) else ok (first ∷ second ∷ [])

media_types_for : List String → String → Expected (List MediaType × Format)
media_types_for c media_type =
    if str_eq media_type "video/raw"
    then ok (video_raw ∷ [], video)
    else if str_eq media_type "audio/L24"
    then (do types ← with_second c (audio_L 24) (audio_L 16); ok (types, audio))
    else if str_eq media_type "audio/L16"
    then (do types ← with_second c (audio_L 16) (audio_L 24); ok (types, audio))
    else unexpected (capability_not_supported media_type)

module _ (L : Libraries) where
  open L use {json, Json, find_member, is_array, get_string, elements}

  -- j.get<std::vector<std::string>>() of an array.
  texts : List Json → Expected (List String)
  texts [] = ok []
  texts (v ∷ vs) = do s ← or_thrown (get_string v); rest ← texts vs; ok (s ∷ rest)

  -- The media types and the format that are set in the receiver.
  unfoldable pub format_specific : Json → Expected (List MediaType × Format)
  unfolding texts with_second media_types_for
  format_specific config = do
    capabilities ← find json (read_json json) config "capabilities"
    enforce (is_array capabilities) capabilities_not_array
    c ← texts (elements capabilities)
    enforce (length c == 1) capabilities_not_one
    media_type ← subscript c 0
    media_types_for c media_type

  transport_file : Option Json → Expected (Option String)
  transport_file none = ok none
  transport_file (some file) = do
    text ← find json (read_text json) file "data"
    type ← find json (read_text json) file "type"
    enforce (str_eq type "application/sdp") transport_file_not_sdp
    ok (some text)

  unfoldable pub nmos_receiver_from_json : Json → Expected NmosReceiver
  unfolding transport_file
  nmos_receiver_from_json config = do
    (meta, _) ← nmos_meta_from_json L config empty_meta
    (master_enable, _) ←
        assign_if_or_value json (read_boolean json) (λ b. b) config "master_enable" false true
    (sender_id, _) ← assign_if json (read_text json) some config "sender_id" none
    (protocol, _) ← assign_if_or_value json (read_text json) (λ s. s) config "protocol" "" rtp_mcast
    network ← find json (read_json json) config "network"
    legs ← network_from_json L network true
    (media_types, format) ← format_specific config
    sdp_data ← transport_file (find_member config "transport_file")
    ok (record {
      meta = meta;
      master_enable = master_enable;
      sender_id = sender_id;
      sdp_data = sdp_data;
      network = legs;
      protocol = protocol;
      format = format;
      media_types = media_types;
    })
