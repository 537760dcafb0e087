-- ===== src/Plugin/Bins.antt =====
-- The bins inside an element of GStreamer, by their numbers.
use nmos_sender_receiver_fra.Prelude.{ℕ, Option, none, some, List, [], ◌∷◌, ◌==◌, if◌then◌else◌}

-- gst_bin_remove(GST_BIN(self), bin); nothing is removed for a null pointer.
unfoldable pub take_out : Option ℕ → List ℕ → List ℕ
take_out none bins = bins
take_out (some b) [] = []
take_out (some b) (c ∷ bins) =
    let rest = take_out (some b) bins in if b == c then bins else c ∷ rest
