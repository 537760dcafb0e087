-- ===== src/Examples/Elements.antt =====
-- An element that sends, and one that receives audio, at concrete inputs.
use nmos_sender_receiver_fra.Prelude.{String, ◌≡◌, refl, true, false, none, some, [], ◌∷◌}
use nmos_sender_receiver_fra.Prelude.Int.{pos}
use nmos_sender_receiver_fra.Expected.{Returns, ok}
use nmos_sender_receiver_fra.Json.Access.{find, get_as}
use nmos_sender_receiver_fra.Configuration.{AudioSenderInfo, audio_info}
use nmos_sender_receiver_fra.Sdp.Settings.{SdpSettings}
use nmos_sender_receiver_fra.Stdlib.Stoi.{stoi, is_space, digit?}
use nmos_sender_receiver_fra.Json.Select.{element, index, name_value, select}
use nmos_sender_receiver_fra.Sdp.Reader.{
  SdpLibrary, AudioParameters, parse_sdp, to_refclk, to_mediaclk, to_network_settings,
  get_raw_audio_params, format_of, parse_json, split_colon,
}
use nmos_sender_receiver_fra.Plugin.Bins.{take_out}
use nmos_sender_receiver_fra.Plugin.Params.{first_param, rtp_enabled}
use nmos_sender_receiver_fra.Plugin.Fields.{default_sender_fields}
use nmos_sender_receiver_fra.Plugin.Sender
use nmos_sender_receiver_fra.Plugin.Sender.{SenderElement, Caps, add_probe, remove_probe, read_or}
use nmos_sender_receiver_fra.Plugin.Sender.Blocked.{
  Disabled, at_first, again, HasDestination, Sends, IsBlocked, enable-Sends,
}
use nmos_sender_receiver_fra.Plugin.Sender.SinkEvent.{sink_event, caps_event}
use nmos_sender_receiver_fra.Plugin.Sender.SinkEvent.Payload.{IsLinked, sink_event-IsLinked}
use nmos_sender_receiver_fra.Plugin.AudioReceiver
use nmos_sender_receiver_fra.Plugin.AudioReceiver.{
  AudioReceiver, Elements, construct_pipeline, enable, disable, remove_old_bin,
}
use nmos_sender_receiver_fra.Plugin.AudioReceiver.Played.{all_made, Plays, enabled-Plays}
use nmos_sender_receiver_fra.Plugin.AudioReceiver.Stopped
use nmos_sender_receiver_fra.Plugin.AudioReceiver.Tidy.Reached
use nmos_sender_receiver_fra.Plugin.AudioReceiver.Stopped.{IsStopped, disabled_for_good}
use nmos_sender_receiver_fra.Examples.Values.{
  Value, boolean, number, text, array, object, empty, cons, done, with, values,
}
use nmos_sender_receiver_fra.Examples.Sdp.{reading, read_parameters, read_settings}
use nmos_sender_receiver_fra.Examples.Written.{zeroed}

-- Transport parameters that enable RTP to an address.
abbrev params : Value
params = array (
    cons
      (object (
        with "rtp_enabled" (boolean true)
          (with "destination_ip" (text "239.0.0.1") (with "destination_port" (number 5004) done))))
      empty)

abbrev fresh : SenderElement
fresh = Sender.init zeroed

abbrev disabled_once : SenderElement
disabled_once = (Sender.on_activation values 5 false params fresh).0

abbrev disabled_twice : SenderElement
disabled_twice = (Sender.on_activation values 6 false params disabled_once).0

enabled : rtp_enabled values (first_param values params) ≡ ok true
unfolding first_param rtp_enabled
enabled = refl

Disabled-twice : Disabled values fresh (6 ∷ 5 ∷ []) disabled_twice
Disabled-twice =
    again 6 false true params refl enabled refl
      (again 5 false true params refl enabled refl at_first)

unblocked : IsBlocked [] fresh
unfolding Sender.init
unblocked = record { known = refl; probes = refl; proper = tt }

destination : HasDestination values params "239.0.0.1" (pos 5004)
unfolding read_or first_param
destination = record { host = refl; number = refl }

enable-Sends_example :
    (u : SenderElement) × (Sender.on_activation values 7 true params disabled_twice ≡ (u, ok tt))
    × Sends values (5 ∷ []) "239.0.0.1" (pos 5004) u
enable-Sends_example =
    enable-Sends values 7 params "239.0.0.1" (pos 5004) unblocked Disabled-twice refl enabled
      destination

abbrev caps : Caps
caps = record {
  size = 1;
  media_type = "audio/x-raw";
  rate = some (pos 48000);
  channels = some (pos 2);
  width = none;
  height = none;
  format = some "S24BE";
  framerate = none;
}

abbrev linked : SenderElement
linked = (sink_event true true true (caps_event (some caps)) fresh).0

links : sink_event true true true (caps_event (some caps)) fresh ≡ (linked, true)
unfolding sink_event Sender.init default_sender_fields
links = refl

sink_event-IsLinked_example : IsLinked fresh linked
sink_event-IsLinked_example = sink_event-IsLinked true true true caps fresh linked refl links

-- An SDP library that reads every text as one session of audio.
abbrev read_audio : AudioParameters reading
read_audio = record { channel_count = pos 2; sample_rate = pos 48000; packet_time = 1 }

abbrev audio_library : SdpLibrary reading
audio_library = record {
  Session = String;
  parse_session = λ s. some s;
  parameters = λ s. some (record read_parameters {
    media_type = "audio";
    encoding_name = "L24";
    audio = some read_audio;
    video = none;
  });
  serialize = λ s. s;
}

abbrev audio : AudioSenderInfo reading
audio = record {
  number_of_channels = pos 2;
  bits_per_sample = 24;
  sampling_rate = pos 48000;
  packet_time = 1;
}

abbrev settings : SdpSettings reading
settings = record read_settings { format = audio_info audio }

parses : parse_sdp reading audio_library "v=0" ≡ ok settings
unfolding parse_sdp select element index name_value find get_as to_refclk to_mediaclk
    to_network_settings get_raw_audio_params format_of parse_json stoi is_space digit? split_colon
parses = refl

abbrev elements : Elements
elements = record {
  udp_src = 2;
  queue = 3;
  rtp_jitter_buffer = 4;
  rtp_audio_depay_16 = 5;
  rtp_audio_depay_24 = 6;
}

abbrev silent : AudioReceiver reading
silent = AudioReceiver.init reading settings

-- An element that was disabled once.
disables :
    AudioReceiver.on_activation reading audio_library
      (all_made 1 elements 7 8 9)
      (some "v=1")
      false
      params
      silent
    ≡ ok silent
unfolding AudioReceiver.on_activation first_param rtp_enabled disable remove_old_bin
    AudioReceiver.init
disables = refl

enabled-Plays_example : Returns (Plays reading 1 8 elements "239.0.0.1" (pos 5004) audio "v=0") (
    AudioReceiver.on_activation reading audio_library
      (all_made 1 elements 7 8 9)
      (some "v=0")
      true
      params
      silent)
unfolding AudioReceiver.init
enabled-Plays_example =
    enabled-Plays reading audio_library 1 7 8 9 elements "239.0.0.1" (pos 5004) audio "v=0" settings
      settings params silent
      (Reached.activated (all_made 1 elements 7 8 9) 9 (some "v=1") false params Reached.start refl
        disables)
      enabled parses refl refl refl refl

abbrev playing : AudioReceiver reading
playing = record silent {
  element_pad = some 9;
  bin = some 1;
  elements = some elements;
  sdp_string = "v=0";
}

abbrev stopped : AudioReceiver reading
stopped = record playing { bin = none; elements = none }

stops :
    AudioReceiver.on_activation reading audio_library
      (all_made 1 elements 7 8 9)
      (some "v=0")
      false
      params
      playing
    ≡ ok stopped
unfolding AudioReceiver.on_activation first_param rtp_enabled disable remove_old_bin
    AudioReceiver.init take_out
stops = refl

starts :
    AudioReceiver.on_activation reading audio_library
      (all_made 1 elements 7 8 9)
      (some "v=0")
      true
      params
      stopped
    ≡ ok stopped
unfolding AudioReceiver.on_activation first_param rtp_enabled enable
starts = rw parses refl

disabled_for_good_example : IsStopped reading "v=0" stopped
unfolding AudioReceiver.init
disabled_for_good_example =
    disabled_for_good reading audio_library (all_made 1 elements 7 8 9) "v=0" params playing stopped
      stopped (record { pad = λ e. cc; taken = refl }) stops
      (Stopped.activated (all_made 1 elements 7 8 9) true params Stopped.at_first starts)
