-- ===== src/Configuration.antt =====
-- cpp/libs/bisect_nmoscpp/lib/include/bisect/nmoscpp/configuration.h: the configuration of devices,
-- receivers and senders. `nmos_receiver_t::capabilities`, which the code neither sets nor reads, is
-- left out.
use nmos_sender_receiver_fra.Prelude.{ℕ, String, Bool, Option, List}
use nmos_sender_receiver_fra.Prelude.Int.{ℤ}
use nmos_sender_receiver_fra.Libraries.{Libraries}

-- nmos::format; `unset` is the empty one.
pub data Format : Type 0 where
  video audio ancillary mux unset : Format

-- nmos::media_types; audio_L24 is audio_L(24).
pub data MediaType : Type 0 where
  video_raw : MediaType
  audio_L : ℕ → MediaType

-- nmos::interlace_modes; `none` is the empty one.
pub data InterlaceMode : Type 0 where
  progressive interlaced_tff interlaced_bff interlaced_psf no_mode : InterlaceMode

pub record NetworkLeg : Type 0 where
  pub rtp_enabled : Bool
  pub source_port : Option ℤ
  pub source_ip : Option String
  pub destination_ip : Option String
  pub destination_port : Option ℤ
  pub interface_name : Option String
  pub interface_ip : Option String

pub record Network : Type 0 where
  pub primary : NetworkLeg
  pub secondary : Option NetworkLeg

pub record MetaInfo : Type 0 where
  pub id : String
  pub label : String
  pub description : String

abbrev pub empty_meta : MetaInfo
empty_meta = record { id = ""; label = ""; description = "" }

pub record NmosReceiver : Type 0 where
  pub meta : MetaInfo
  pub open meta use *
  pub master_enable : Bool
  pub sender_id : Option String
  pub sdp_data : Option String
  pub network : Network
  pub protocol : String
  pub format : Format
  pub media_types : List MediaType

pub record NmosDevice : Type 0 where
  pub meta : MetaInfo
  pub open meta use *
  pub node_id : String

module _ (L : Libraries) where
  open L use {Float, Rational, Web}

  pub record VideoSenderInfo : Type 0 where
    pub height : ℤ
    pub width : ℤ
    pub exact_framerate : Rational
    pub chroma_sub_sampling : String
    pub structure : InterlaceMode
    pub depth : ℤ

  pub record AudioSenderInfo : Type 0 where
    pub number_of_channels : ℤ
    pub bits_per_sample : ℕ
    pub sampling_rate : ℤ
    pub packet_time : Float

  pub data SenderMedia : Type 0 where
    video_info : VideoSenderInfo → SenderMedia
    audio_info : AudioSenderInfo → SenderMedia

  pub record NmosSender : Type 0 where
    pub meta : MetaInfo
    pub open meta use *
    pub master_enable : Bool
    pub network : Network
    pub protocol : String
    pub format : Format
    pub grain_rate : Rational
    pub media_type : String
    pub source : MetaInfo
    pub flow : MetaInfo
    pub flow_extra : Web
    pub media : SenderMedia
    pub payload_type : Option ℕ
    pub forced_sdp : Option String
    pub extra : Web
