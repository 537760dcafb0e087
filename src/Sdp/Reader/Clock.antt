-- ===== src/Sdp/Reader/Clock.antt =====
-- Clocks that are printed are read back.
use nmos_sender_receiver_fra.Prelude.{
  ℕ, ◌<◌, code, String, ◌≡◌, refl, ap, false, Option, none, some, [], ◌∷◌, arith, ◌==◌, append,
}
use nmos_sender_receiver_fra.Expected.{ok}
use nmos_sender_receiver_fra.Prelude.Int.{pos, wrap}
use nmos_sender_receiver_fra.Stdlib.Stoi.{stoi}
use nmos_sender_receiver_fra.Sdp.Fmt.{Fmt, PrintsBytes}
use nmos_sender_receiver_fra.Sdp.Mac.Codec.{to_mac_address-to_string}
use nmos_sender_receiver_fra.Expected.{ok}
use nmos_sender_receiver_fra.Sdp.Mac.{MacAddress, IsBytes}
use nmos_sender_receiver_fra.Sdp.Clocks.{RefClk, localmac, ptp, refclk_to_string}
use nmos_sender_receiver_fra.Sdp.Reader.{
  TsRefClk, before, split_colon, to_refclk, named_clock, ptp_clock, domain_of,
}

-- `s` has no colon.
abbrev pub NoColon : String → Type 0
NoColon String.[] = Unit
NoColon (String.◌∷◌ c s) = ((code c == b':') ≡ false) × NoColon s

split_colon-none : (s : String) → NoColon s → split_colon s ≡ none
unfolding split_colon before
split_colon-none String.[] h = refl
split_colon-none (String.◌∷◌ c s) h = rw (h.0, split_colon-none s h.1)

split_colon-append :
    (s t : String) → NoColon s → split_colon (append s (String.◌∷◌ ":" t)) ≡ some (s, t)
unfolding split_colon before
split_colon-append String.[] t h = refl
split_colon-append (String.◌∷◌ c s) t h = rw (h.0, split_colon-append s t h.1)

-- The text of a number is read back by `stoi` in base 10.
abbrev pub ReadsBack : Fmt → ℕ → Type 0
ReadsBack f n = (k : ℕ) × (stoi 10 (f.dec n) ≡ some (pos n, k))

-- A clock whose text is read back: a MAC address of bytes, a grandmaster with no colon, a domain that
-- is a byte and whose decimal text reads back.
pub data IsReadable (f : Fmt) : RefClk → Type 0 where
  of_mac : (m : MacAddress) → IsBytes m → IsReadable f (localmac m)
  of_server : (gmid : String) → NoColon gmid → IsReadable f (ptp gmid none)
  of_domain :
      (gmid : String) (d : ℕ)
      → NoColon gmid
      → d < 256
      → ReadsBack f d
      → IsReadable f (ptp gmid (some d))

-- The grammar of the reference clocks of RFC 7273 that the SDP library reads: the source is what
-- stands before `=`, and after it stands the address, or the version of IEEE 1588 and the server.
pub record ReadsClocks (read : String → Option TsRefClk) : Type 0 where
  pub mac :
      (address : String)
      → read (append "localmac=" address)
        ≡ some (record { clock_source = "localmac"; mac_address = address; ptp_server = "" })
  pub server :
      (server : String)
      → read (append "ptp=IEEE1588-2008:" server)
        ≡ some (record { clock_source = "ptp"; mac_address = ""; ptp_server = server })

append-empty : (s : String) → append s "" ≡ s
append-empty String.[] = refl
append-empty (String.◌∷◌ c s) = ap (String.◌∷◌ c) (append-empty s)

wrap_byte : (d : ℕ) → d < 256 → wrap 8 (pos d) ≡ d
wrap_byte d lt = omega arith

-- Where the SDP library reads the grammar of RFC 7273: a reference clock that is printed is read back,
-- a MAC address of bytes, or a grandmaster with no colon and a domain that is a byte and whose decimal
-- text reads back.
pub to_refclk-refclk_to_string :
    (f : Fmt) (read : String → Option TsRefClk) (c : RefClk)
    → PrintsBytes f
    → ReadsClocks read
    → IsReadable f c
    → (p : TsRefClk) × (read (refclk_to_string f c) ≡ some p) × (to_refclk (p ∷ []) ≡ ok c)
unfolding refclk_to_string to_refclk named_clock ptp_clock domain_of
to_refclk-refclk_to_string f read c prints reads (of_mac m h) =
    (_, reads.mac _, rw (to_mac_address-to_string f m "-" prints h) refl)
to_refclk-refclk_to_string f read c prints reads (of_server gmid h) =
    (_, reads.server _, rw (append-empty gmid, split_colon-none gmid h) refl)
to_refclk-refclk_to_string f read c prints reads (of_domain gmid d h lt (k, e)) =
    (_, reads.server _, rw (split_colon-append gmid (f.dec d) h, e, wrap_byte d lt) refl)
