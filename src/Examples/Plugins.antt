-- ===== src/Examples/Plugins.antt =====
-- An element that receives video: it is made, connected to a node, activated and deactivated.
use nmos_sender_receiver_fra.Prelude.{
  String, ◌≡◌, refl, subst, true, false, none, some, [], ◌∷◌, arith,
}
use nmos_sender_receiver_fra.Plugin.VideoReceiver.{
  Answers, VideoReceiver, null_to_ready, init, remove_old_bin, buffer_monitor_probe,
  construct_pipeline, check_no_data_timeout, disable, enable, on_activation, change_state,
}
use nmos_sender_receiver_fra.Prelude.Int.{ℤ, pos}
use nmos_sender_receiver_fra.Expected.{Safe, Returns, ok}
use nmos_sender_receiver_fra.Plugin.Bins.{take_out}
use nmos_sender_receiver_fra.Plugin.Params.{first_param, rtp_enabled}
use nmos_sender_receiver_fra.Plugin.VideoReceiver.Steps.{
  buffer, activated, changed, Reach, start, later, takes, taken_by, last_taken,
}
use nmos_sender_receiver_fra.Plugin.VideoReceiver.Steps.Source.{IsSourced}
use nmos_sender_receiver_fra.Plugin.VideoReceiver.Steps.Events.{Reach-IsSourced, events-Safe}
use nmos_sender_receiver_fra.Plugin.VideoReceiver.Steps.Restart.{all_made, IsFresh, check-IsFresh}
use nmos_sender_receiver_fra.Plugin.VideoReceiver.Steps.Down.{
  IsDown, SameSdp, at_first, SameSdp-IsDown,
}
use nmos_sender_receiver_fra.Plugin.VideoReceiver.Steps.Down
use nmos_sender_receiver_fra.Examples.Values.{
  Value, boolean, array, object, empty, cons, done, with, values, values-Converts,
}
use nmos_sender_receiver_fra.Examples.Sdp.{reading, sdp_library, read_settings, read_info, parses}

-- Transport parameters that enable RTP.
abbrev params : Value
params = array (cons (object (with "rtp_enabled" (boolean true) done)) empty)

abbrev answers : Answers
answers = all_made 1 2 3 4 5 6 7

abbrev made : VideoReceiver reading
made = init reading read_settings 0

abbrev connected : VideoReceiver reading
connected = record made { client = true; nmos_active = true }

abbrev receiving : VideoReceiver reading
receiving = record connected {
  element_pad = some 7;
  bin_pad = some 6;
  bin = some 1;
  rtp_video_depay = some 4;
  rtp_jitter_buffer = some 3;
  queue = some 2;
  sdp_string = "v=0";
  bins = 1 ∷ [];
  source_address = some ("239.0.0.1", pos 5004);
  caps = some read_info;
  source_started = true;
  target = some 6;
  playing = true;
}

abbrev with_data : VideoReceiver reading
with_data = record receiving { pipeline_clear = false; last_buffer_time = 100 }

abbrev taken_down : VideoReceiver reading
taken_down = record receiving {
  element_pad = none;
  bin = none;
  rtp_video_depay = none;
  rtp_jitter_buffer = none;
  queue = none;
  user_forced_stop = true;
  bins = [];
  source_started = false;
}

abbrev Any : Answers → Type 0
Any a = Unit

connects : change_state reading null_to_ready true true made ≡ connected
unfolding change_state init
connects = refl

activates :
    on_activation reading sdp_library answers (some "v=0") true params connected ≡ ok receiving
unfolding on_activation first_param rtp_enabled enable construct_pipeline remove_old_bin init
activates = rw parses refl

enabled : rtp_enabled values (first_param values params) ≡ ok true
unfolding first_param rtp_enabled
enabled = refl

gets_data : buffer_monitor_probe reading 100 receiving ≡ with_data
unfolding buffer_monitor_probe init
gets_data = refl

reached_connected : Reach reading sdp_library Any read_settings 0 connected
reached_connected =
    subst (Reach reading sdp_library Any read_settings 0) connects
      (later start (changed null_to_ready true true))

reached : Reach reading sdp_library Any read_settings 0 receiving
reached = later reached_connected (activated answers (some "v=0") true params tt refl activates)

reached_data : Reach reading sdp_library Any read_settings 0 with_data
reached_data =
    subst (Reach reading sdp_library Any read_settings 0) gets_data
      (later reached (buffer 100 refl))

Reach-IsSourced_example :
    IsSourced reading sdp_library (last_taken reading sdp_library Any reached) receiving
Reach-IsSourced_example = Reach-IsSourced reading sdp_library values-Converts Any reached

takes_file : last_taken reading sdp_library Any reached ≡ "v=0"
unfolding last_taken taken_by takes first_param rtp_enabled reached
takes_file = rw parses refl

events-Safe_example :
    Safe (λ _. Unit {0}) (check_no_data_timeout reading 6000101 answers with_data)
    × Safe
        (λ _. Unit {0})
        (on_activation reading sdp_library answers (some "v=1") true params with_data)
events-Safe_example =
    events-Safe reading sdp_library values-Converts Any 6000101 answers (some "v=1") true params
      true reached_data enabled

check-IsFresh_example :
    (ip : String) × (port : ℤ) × (with_data.source_address ≡ some (ip, port))
    × Returns
        (IsFresh reading 11 17 16 ip port)
        (check_no_data_timeout reading 6000101 (all_made 11 12 13 14 15 16 17) with_data)
unfolding init
check-IsFresh_example =
    check-IsFresh reading values-Converts sdp_library Any 11 12 13 14 15 16 17 6000101 reached_data
      (λ e. cc) refl refl (omega arith)

deactivates :
    on_activation reading sdp_library answers (some "v=0") false params receiving ≡ ok taken_down
unfolding on_activation first_param rtp_enabled disable remove_old_bin init take_out
deactivates = refl

reactivates :
    on_activation reading sdp_library answers (some "v=0") true params taken_down
    ≡ ok (record taken_down { user_forced_stop = false })
unfolding on_activation first_param rtp_enabled enable
reactivates = rw parses refl

SameSdp-IsDown_example : IsDown reading "v=0" (record taken_down { user_forced_stop = false })
unfolding init
SameSdp-IsDown_example =
    SameSdp-IsDown reading sdp_library "v=0" taken_down
      (record taken_down { user_forced_stop = false })
      (Down.activated answers true params at_first reactivates)
      (record { pad = refl; clear = refl; taken = refl })
