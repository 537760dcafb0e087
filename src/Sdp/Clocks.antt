-- ===== src/Sdp/Clocks.antt =====
-- clocks.h and the printing of clocks in clocks.cpp.
use nmos_sender_receiver_fra.Prelude.{ℕ, String, Option, none, some, append}
use nmos_sender_receiver_fra.Sdp.Fmt.{Fmt}
use nmos_sender_receiver_fra.Sdp.Mac.{MacAddress}
use nmos_sender_receiver_fra.Sdp.Mac

-- refclk_t; the domain is a byte
pub data RefClk : Type 0 where
  localmac : MacAddress → RefClk
  ptp : String → Option ℕ → RefClk

-- mediaclk_t; the offset has 64 bits
pub data MediaClk : Type 0 where
  direct : ℕ → MediaClk
  sender_clock : MediaClk

-- The text of the optional domain.
abbrev pub domain_text : Fmt → Option ℕ → String
domain_text f none = ""
domain_text f (some d) = append ":" (f.dec d)

unfoldable pub refclk_to_string : Fmt → RefClk → String
refclk_to_string f (localmac address) = append "localmac=" (Mac.to_string f address "-")
refclk_to_string f (ptp gmid domain) =
    append "ptp=IEEE1588-2008:" (append gmid (domain_text f domain))

unfoldable pub mediaclk_to_string : Fmt → MediaClk → String
mediaclk_to_string f sender_clock = "sender"
mediaclk_to_string f (direct offset) = append "direct=" (f.dec offset)
