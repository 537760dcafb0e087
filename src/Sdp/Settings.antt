-- ===== src/Sdp/Settings.antt =====
-- settings.h: what an SDP file says of a stream.
use nmos_sender_receiver_fra.Prelude.{ℕ, String, Option}
use nmos_sender_receiver_fra.Libraries.{Libraries}
use nmos_sender_receiver_fra.Configuration.{NetworkLeg, SenderMedia}
use nmos_sender_receiver_fra.Sdp.Clocks.{RefClk, MediaClk}

-- origin_settings_t
pub record OriginSettings : Type 0 where
  pub description : String
  pub session_id : String
  pub session_version : String

module _ (L : Libraries) where
  -- sdp_settings_t; the payload type, a byte, is rtp_settings_t
  pub record SdpSettings : Type 0 where
    pub format : SenderMedia L
    pub origin : OriginSettings
    pub payload_type : ℕ
    pub primary : NetworkLeg
    pub secondary : Option NetworkLeg
    pub ts_refclk : RefClk
    pub mediaclk : MediaClk
