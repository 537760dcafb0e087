-- ===== src/Plugin/AudioReceiver/Tidy.antt =====
-- The bins of an element that receives audio, once a pipeline is built.
pub mod Reached
use nmos_sender_receiver_fra.Prelude.{
  ℕ, String, ◌≡◌, refl, sym, ap, subst, ◌∙◌, Bool, Option, none, some, [], ◌∷◌, ==_iff,
  if◌then◌else◌,
}
use nmos_sender_receiver_fra.Prelude.Int.{ℤ}
use nmos_sender_receiver_fra.Expected.{ok, Ensures-bind, ok-injective}
use nmos_sender_receiver_fra.Libraries.{Libraries}
use nmos_sender_receiver_fra.Json.Access.{or_thrown}
use nmos_sender_receiver_fra.Configuration.{SenderMedia, AudioSenderInfo, video_info, audio_info}
use nmos_sender_receiver_fra.Node.Action.{either_branch}
use nmos_sender_receiver_fra.Plugin.Bins.{take_out}
use nmos_sender_receiver_fra.Plugin.AudioReceiver.{
  Answers, Elements, AudioReceiver, take_down, remove_from, remove_old_bin, set_target, add_bin,
  show, ghosted, set_bin_pad, expose, set_depay, link, depay_for, set_elements, assemble, all_of,
  set_bin, build, construct_for, construct_pipeline,
}

module _ (L : Libraries) where
  open L use {json, Json}

  -- Once the pipeline is taken down, the element has no bin.
  pub record IsTidy (r : AudioReceiver L) : Type 0 where
    pub cleared : (remove_old_bin L r).bins ≡ []

  empty-IsTidy : (o : Option ℕ) (r : AudioReceiver L) → r.bins ≡ [] → (remove_from L o r).bins ≡ []
  unfolding remove_from take_down take_out
  empty-IsTidy none r e = e
  empty-IsTidy (some pad) r e = ap (take_out r.bin) e ∙ nothing r.bin
    where
      nothing : (o : Option ℕ) → take_out o [] ≡ []
      nothing none = refl
      nothing (some b) = refl

  pub no_bins : (r : AudioReceiver L) → r.bins ≡ [] → IsTidy r
  unfolding remove_old_bin
  no_bins r e = record { cleared = empty-IsTidy r.element_pad r e }

  -- An element with the one bin that it knows and a pad.
  one_bin :
      (b p : ℕ) (r : AudioReceiver L)
      → r.bin ≡ some b
      → r.bins ≡ b ∷ []
      → r.element_pad ≡ some p
      → IsTidy r
  unfolding remove_old_bin remove_from take_down take_out
  one_bin b p r h e k = record {
    cleared =
        ap (λ o. (remove_from L o r).bins) k
        ∙ ap (λ o. take_out o r.bins) h
        ∙ ap (take_out (some b)) e
        ∙ ap (λ (c : Bool). if c then [] else b ∷ []) ((==_iff b b).1 refl);
  }

  -- Building a pipeline in an element with no bin, by the steps of the code.
  show-IsTidy :
      (answers : Answers) (b g p : ℕ) (r : AudioReceiver L)
      → r.bin ≡ some b
      → r.bins ≡ []
      → IsTidy (show L answers g (some p) r)
  unfolding show
  show-IsTidy answers b g p r h e =
      one_bin b p (set_target L answers g p (add_bin L r)) h
        (ap (λ o. elim o [ none ↦ r.bins | some c ↦ c ∷ r.bins ]) h ∙ ap (λ bs. b ∷ bs) e) refl

  ghosted-IsTidy :
      (answers : Answers) (b p : ℕ) (o : Option ℕ) (r : AudioReceiver L)
      → answers.plugin_pad ≡ some p
      → r.bin ≡ some b
      → r.bins ≡ []
      → IsTidy (ghosted L answers o r)
  unfolding ghosted
  ghosted-IsTidy answers b p none r k h e = no_bins r e
  ghosted-IsTidy answers b p (some g) r k h e =
      either_branch IsTidy answers.pad_added
        (subst (λ o. IsTidy (show L answers g o r)) (sym k) (show-IsTidy answers b g p r h e))
        (no_bins r e)

  expose-IsTidy :
      (answers : Answers) (b p : ℕ) (o : Option ℕ) (r : AudioReceiver L)
      → answers.plugin_pad ≡ some p
      → r.bin ≡ some b
      → r.bins ≡ []
      → IsTidy (expose L answers o r)
  unfolding expose
  expose-IsTidy answers b p none r k h e = no_bins r e
  expose-IsTidy answers b p (some s) r k h e =
      ghosted-IsTidy answers b p answers.ghost_pad (set_bin_pad L answers r) k h e

  assemble-IsTidy :
      (answers : Answers) (audio : AudioSenderInfo L) (address : String × ℤ) (b p : ℕ)
      (o : Option Elements) (r : AudioReceiver L)
      → answers.plugin_pad ≡ some p
      → r.bin ≡ some b
      → r.bins ≡ []
      → IsTidy (assemble L answers audio address o r)
  unfolding assemble link
  assemble-IsTidy answers audio address b p none r k h e = no_bins r e
  assemble-IsTidy answers audio address b p (some es) r k h e =
      let linked = set_elements L audio address es r in
      either_branch IsTidy answers.linked
        (expose-IsTidy answers b p answers.src_pad (set_depay L (depay_for L audio es) linked) k h
          e)
        (no_bins linked e)

  build-IsTidy :
      (answers : Answers) (audio : AudioSenderInfo L) (address : String × ℤ) (p : ℕ) (o : Option ℕ)
      (r : AudioReceiver L)
      → answers.plugin_pad ≡ some p
      → r.bins ≡ []
      → IsTidy (build L answers audio address o r)
  unfolding build
  build-IsTidy answers audio address p none r k e = no_bins r e
  build-IsTidy answers audio address p (some b) r k e =
      assemble-IsTidy answers audio address b p
        (all_of L answers.udp_src answers.queue answers.jitter answers.depay_16 answers.depay_24)
        (set_bin L b r) k refl e

  construct_for-IsTidy :
      (answers : Answers) (m : SenderMedia L) (p : ℕ) (r t : AudioReceiver L)
      → answers.plugin_pad ≡ some p
      → r.bins ≡ []
      → construct_for L answers m r ≡ ok t
      → IsTidy t
  unfolding construct_for
  construct_for-IsTidy answers (video_info v) p r t k e =
      λ h. subst IsTidy (ok-injective h) (no_bins r e)
  construct_for-IsTidy answers (audio_info a) p r t k e =
      Ensures-bind (or_thrown r.sdp_settings.primary.destination_ip) _
        (λ ip _. Ensures-bind (or_thrown r.sdp_settings.primary.destination_port) _ λ port _ t h.
          subst IsTidy (ok-injective h) (build-IsTidy answers a (ip, port) p answers.bin r k e))
        t

  pub construct_pipeline-IsTidy :
      (answers : Answers) (p : ℕ) (r t : AudioReceiver L)
      → answers.plugin_pad ≡ some p
      → r.bins ≡ []
      → construct_pipeline L answers r ≡ ok t
      → IsTidy t
  unfolding construct_pipeline
  construct_pipeline-IsTidy answers p r t = construct_for-IsTidy answers r.sdp_settings.format p r t

  -- Members that the bins do not depend on.
  pub IsTidy-as :
      (r t : AudioReceiver L)
      → IsTidy r
      → r.element_pad ≡ t.element_pad
      → r.bin ≡ t.bin
      → r.bins ≡ t.bins
      → IsTidy t
  unfolding remove_old_bin remove_from take_down
  IsTidy-as r t h a b c = record { cleared = removed r.element_pad t.element_pad a ∙ h.cleared }
    where
      removed : (o q : Option ℕ) → o ≡ q → (remove_from L q t).bins ≡ (remove_from L o r).bins
      removed none none e = sym c
      removed none (some x) e = cc
      removed (some x) none e = cc
      removed (some x) (some y) e =
          ap (λ o. take_out o t.bins) (sym b) ∙ ap (take_out r.bin) (sym c)
