-- ===== src/Plugin/VideoReceiver/Steps.antt =====
-- What happens to an element that receives video, one event after another.
pub mod Source
pub mod Events
pub mod Down
pub mod Restart
use nmos_sender_receiver_fra.Prelude.{ℕ, String, ◌≡◌, Bool, true, false, ◌&&◌, Option, none, some}
use nmos_sender_receiver_fra.Expected.{Expected, ok, unexpected, thrown, undefined}
use nmos_sender_receiver_fra.Libraries.{Libraries}
use nmos_sender_receiver_fra.Sdp.Settings.{SdpSettings}
use nmos_sender_receiver_fra.Sdp.Reader.{SdpLibrary, parse_sdp}
use nmos_sender_receiver_fra.Plugin.Params.{first_param, rtp_enabled}
use nmos_sender_receiver_fra.Plugin.VideoReceiver.{
  Answers, Transition, VideoReceiver, init, buffer_monitor_probe, check_no_data_timeout,
  on_activation, change_state,
}

module _ (L : Libraries) (S : SdpLibrary L) (G : Answers → Type 0) where
  open L use {json, Json}

  -- One event, where GStreamer answers as `G` tells. Buffers may come, whatever the state of
  -- the bin around the element, once udp_src was let run and not stopped, and activations once there is
  -- a client.
  pub data Step (r : VideoReceiver L) : VideoReceiver L → Type 0 where
    buffer : (now : ℕ) → r.source_started ≡ true → Step r (buffer_monitor_probe L now r)
    second :
        (now : ℕ) (answers : Answers) {t : VideoReceiver L}
        → G answers
        → check_no_data_timeout L now answers r ≡ ok t
        → Step r t
    activated :
        (answers : Answers) (sdp : Option String) (master_enabled : Bool) (transport_params : Json)
        {t : VideoReceiver L}
        → G answers
        → r.client ≡ true
        → on_activation L S answers sdp master_enabled transport_params r ≡ ok t
        → Step r t
    changed :
        (transition : Transition) (config created : Bool)
        → Step r (change_state L transition config created r)

  -- The states from an element that was made at the time `now` in memory that held `memory`.
  pub data Reach (memory : SdpSettings L) (now : ℕ) : VideoReceiver L → Type 0 where
    start : Reach memory now (init L memory now)
    later : {r t : VideoReceiver L} → Reach memory now r → Step r t → Reach memory now t

  -- The SDP file that was taken last, once one that reads as `read` is given: a file that cannot be
  -- read is not taken.
  abbrev pub read_as : Expected (SdpSettings L) → String → String → String
  read_as (ok settings) sdp last = sdp
  read_as (unexpected e) sdp last = last
  read_as thrown sdp last = last
  read_as undefined sdp last = last

  -- The same after an activation that enables the element, or does not.
  unfoldable pub takes : Bool → Option String → String → String
  takes true (some sdp) last = read_as (parse_sdp L S sdp) sdp last
  takes true none last = last
  takes false sdp last = last

  abbrev pub enables : Bool → Expected Bool → Bool
  enables master_enabled (ok rtp) = master_enabled && rtp
  enables master_enabled _ = false

  unfoldable pub taken_by : {r t : VideoReceiver L} → Step r t → String → String
  taken_by (activated answers sdp master_enabled params g c e) last =
      takes (enables master_enabled (rtp_enabled json (first_param json params))) sdp last
  taken_by (buffer now e) last = last
  taken_by (second now answers g e) last = last
  taken_by (changed transition config created) last = last

  -- The SDP file that the events up to a state gave last, empty if none did.
  unfoldable pub last_taken :
      {memory : SdpSettings L} {now : ℕ} {r : VideoReceiver L} → Reach memory now r → String
  last_taken start = ""
  last_taken (later p q) = taken_by q (last_taken p)
