-- ===== src/Plugin/Fields.antt =====
-- nmos_configuration.hpp, and what utils.cpp does with its fields: the defaults and the names of
-- formats.
use nmos_sender_receiver_fra.Prelude.{String, Bool, true, false, str_eq, if◌then◌else◌}
use nmos_sender_receiver_fra.Prelude.Int.{ℤ, pos}

pub record NodeFields : Type 0 where
  pub id : String
  pub configuration_location : String

pub record DeviceFields : Type 0 where
  pub id : String
  pub label : String
  pub description : String

pub record VideoMediaFields : Type 0 where
  pub width : ℤ
  pub height : ℤ
  pub frame_rate_num : ℤ
  pub frame_rate_den : ℤ
  pub sampling : String
  pub structure : String

pub record AudioMediaFields : Type 0 where
  pub format : String
  pub number_of_channels : ℤ
  pub sampling_rate : ℤ
  pub packet_time : ℤ

pub record NetworkFields : Type 0 where
  pub source_address : String
  pub interface_name : String
  pub destination_address : String
  pub destination_port : ℤ

pub record ConfigFields : Type 0 where
  pub node : NodeFields
  pub device : DeviceFields
  pub is_audio : Bool
  pub video_media_fields : VideoMediaFields
  pub audio_sender_fields : AudioMediaFields
  pub id : String
  pub label : String
  pub description : String
  pub network : NetworkFields
  pub interface_name : String
  pub address : String

-- create_default_config_fields_sender, of fields that held `config`.
unfoldable pub default_sender_fields : ConfigFields → ConfigFields
default_sender_fields config = record config {
  node = record {
    id = "d5504cd1-fe68-489d-99d4-20d3f075f062";
    configuration_location =
        "/home/nmos/repos/nmos-sender-receiver-framework/cpp/demos/config/nmos_plugin_node_config_sender.json";
  };
  device = record {
    id = "e92e628b-7421-4723-9fb9-c1f3b38af9d3";
    label = "OSSRF Device2";
    description = "OSSRF Device2";
  };
  video_media_fields = record {
    width = pos 640;
    height = pos 480;
    frame_rate_num = pos 50;
    frame_rate_den = pos 1;
    sampling = "YCbCr-4:2:2";
    structure = "progressive";
  };
  audio_sender_fields = record {
    format = "audio/L24";
    number_of_channels = pos 1;
    packet_time = pos 1;
    sampling_rate = pos 48000;
  };
  network = record {
    source_address = "192.168.1.120";
    interface_name = "wlp1s0";
    destination_address = "192.168.1.120";
    destination_port = pos 9999;
  };
  id = "1c920570-e0b4-4637-b02c-26c9d4275c71";
  label = "BISECT OSSRF Media Sender";
  description = "BISECT OSSRF Media Sender";
}

-- create_default_config_fields_video_receiver
unfoldable pub default_video_receiver_fields : ConfigFields → ConfigFields
default_video_receiver_fields config = record config {
  node = record {
    id = "d49c85db-1c33-4f21-b160-58edd2af1810";
    configuration_location =
        "/home/nmos/repos/nmos-sender-receiver-framework/cpp/demos/config/nmos_plugin_node_config_receiver.json";
  };
  device = record {
    id = "1ad20d7c-8c58-4c84-8f14-3cf3e3af164c";
    label = "OSSRF Device2";
    description = "OSSRF Device2";
  };
  id = "db9f46cf-2414-4e25-b6c6-2078159857f9";
  label = "BISECT OSSRF Video Receiver";
  description = "BISECT OSSRF Video Receiver";
  interface_name = "wlp1s0";
  address = "192.168.1.36";
  is_audio = false;
}

-- create_default_config_fields_audio_receiver
unfoldable pub default_audio_receiver_fields : ConfigFields → ConfigFields
default_audio_receiver_fields config = record config {
  node = record {
    id = "d1073007-4099-452f-b8e8-837b8987d845";
    configuration_location =
        "/home/nmos/repos/nmos-sender-receiver-framework/cpp/demos/config/nmos_plugin_node_config_receiver.json";
  };
  device = record {
    id = "093a1c56-4033-49f7-9e17-fbcb21a19383";
    label = "OSSRF Device2";
    description = "OSSRF Device2";
  };
  id = "af600517-a452-4c2c-8b60-2caa770d6435";
  label = "BISECT OSSRF Audio Receiver";
  description = "BISECT OSSRF Audio Receiver";
  interface_name = "wlp1s0";
  address = "192.168.1.36";
  is_audio = true;
}

-- The lookups in the static maps, which have two keys.
unfoldable pub translate_video_format : String → String
translate_video_format gst_format =
    if str_eq gst_format "UYVP"
    then "YCbCr-4:2:2"
    else if str_eq gst_format "RGBA"
    then "RGBA-8:8:8:8"
    else gst_format

unfoldable pub translate_audio_format : String → String
translate_audio_format gst_format =
    if str_eq gst_format "S24BE"
    then "L24"
    else if str_eq gst_format "S16LE"
    then "L16"
    else gst_format
