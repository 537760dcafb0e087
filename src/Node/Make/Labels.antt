-- ===== src/Node/Make/Labels.antt =====
-- The labels of the resources that are made.
use nmos_sender_receiver_fra.Prelude.{String, ◌≡◌, subst, []}
use nmos_sender_receiver_fra.Expected.{Safe, is_ok, ok, Ensures-bind, ok-injective}
use nmos_sender_receiver_fra.Libraries.{Libraries}
use nmos_sender_receiver_fra.Configuration.{
  NmosReceiver, NmosSender, NmosDevice, MetaInfo, AudioSenderInfo, VideoSenderInfo,
}
use nmos_sender_receiver_fra.Node.Api.{Nmos}
use nmos_sender_receiver_fra.Node.Transport.{WebValues}
use nmos_sender_receiver_fra.Node.Transport.Params.{Assigns}
use nmos_sender_receiver_fra.Node.Make.{
  Factory, set_label, set_description, set_data, describe, set_versions, make_device, make_receiver,
  do_make_source, make_source, make_audio_flow, make_video_flow, make_sender,
}

module _ (L : Libraries) (nmos : Nmos L) (W : WebValues L) where
  open L use {Web}
  open nmos use {Item, item_data, with_data}
  open W use {string, member}

  -- The resource has the label and the description of its configuration.
  pub record IsLabelled (info : MetaInfo) (x : Item) : Type 0 where
    pub label : member (item_data x) "label" ≡ string info.label
    pub description : member (item_data x) "description" ≡ string info.description

  module _ (F : Factory L nmos) (w : Assigns L W)
      (kept : (x : Item) (d : Web) → item_data (with_data x d) ≡ d) where
    describe-IsLabelled :
        (info : MetaInfo) (x : Item) → IsLabelled info (describe L nmos W F info x)
    unfolding describe set_label set_description set_data
    describe-IsLabelled info x = record {
      label = simp (kept, w.member_set);
      description = simp (kept, w.member_set);
    }

    versions-IsLabelled :
        (info : MetaInfo) (x : Item)
        → IsLabelled info x
        → IsLabelled info (set_versions L nmos W F x)
    unfolding set_versions
    versions-IsLabelled info x h = record {
      label = simp (kept, w.member_set) h.label;
      description = simp (kept, w.member_set) h.description;
    }

    -- Every resource that is made has the label and the description of its configuration, also where what
    -- is merged into it says otherwise; `x` is the source that is made.
    pub made-AreLabelled :
        (device_id source_id media_type : String) (extra : Web) (d : NmosDevice) (r : NmosReceiver)
        (s : NmosSender L) (a : AudioSenderInfo L) (v : VideoSenderInfo L) (x : Item)
        → make_source L nmos W F device_id s ≡ ok x
        → IsLabelled d.meta (make_device L nmos W F [] [] d)
          × IsLabelled r.meta (make_receiver L nmos W F device_id r)
          × IsLabelled s.meta (make_sender L nmos W F device_id s)
          × IsLabelled s.source x
          × Safe (IsLabelled s.flow) (make_audio_flow L nmos W F device_id source_id s.flow a)
          × Safe
              (IsLabelled s.flow)
              (make_video_flow L nmos W F device_id source_id s.flow extra media_type v)
    unfolding make_device make_receiver make_sender make_source make_audio_flow make_video_flow
    made-AreLabelled device_id source_id media_type extra d r s a v x e = (
      describe-IsLabelled d.meta _,
      versions-IsLabelled r.meta _ (describe-IsLabelled r.meta _),
      describe-IsLabelled s.meta _,
      Ensures-bind {Q = IsLabelled s.source} (do_make_source L nmos W F device_id s) _
          (λ y _ z e. subst (IsLabelled s.source) (ok-injective e) (describe-IsLabelled s.source y))
          x e,
      is_ok (describe-IsLabelled s.flow _),
      is_ok (describe-IsLabelled s.flow _),
    )
