-- ===== src/Node/Impl.antt =====
-- nmos_impl.cpp: the operations of nmos_t. `Makers` is what it uses of the functions that make resources.
use nmos_sender_receiver_fra.Prelude.{String, ◌||◌, List, if◌then◌else◌}
use nmos_sender_receiver_fra.Expected.{Expected, other, ok, unexpected}
use nmos_sender_receiver_fra.Libraries.{Libraries}
use nmos_sender_receiver_fra.Configuration.{
  NmosReceiver, NmosSender, NmosDevice, MetaInfo, SenderMedia, video_info, audio_info,
  VideoSenderInfo, AudioSenderInfo,
}
use nmos_sender_receiver_fra.Context.ResourceMap.{ResourceType, sender, receiver, device, type_eq}
use nmos_sender_receiver_fra.Node.Action.{Action, ◌>>=◌, ◌>>◌, pure, lift}
use nmos_sender_receiver_fra.Node.Api.{Nmos}
use nmos_sender_receiver_fra.Node.Controller.{
  Part, of_node, of_connection, Model, insert_item, modify_resource_after, erase_item, erase_device,
  has,
}

module _ (L : Libraries) (nmos : Nmos L) where
  open nmos use {Item, item_id, item_data, with_data, set_field, of_elements}
  open L use {Web}

  -- make_device and the like of nmos_controller_t, with a device's id first.
  pub record Makers : Type 0 where
    pub make_device : NmosDevice → Item
    pub make_receiver : String → NmosReceiver → Item
    pub make_connection_receiver : String → NmosReceiver → Item
    pub make_source : String → NmosSender L → Expected Item
    pub make_video_flow :
        String → String → MetaInfo → Web → String → VideoSenderInfo L → Expected Item
    pub make_audio_flow : String → String → MetaInfo → AudioSenderInfo L → Expected Item
    pub make_sender : String → NmosSender L → Item
    pub make_connection_sender : String → NmosSender L → Item

  module _ (make : Makers) where
    unfoldable pub add_device : NmosDevice → Action (Model L nmos) (Unit {0})
    add_device config = insert_item L nmos of_node (make.make_device config)

    unfoldable pub add_receiver : String → NmosReceiver → Action (Model L nmos) (Unit {0})
    add_receiver device_id config = do
      insert_item L nmos of_node (make.make_receiver device_id config)
      insert_item L nmos of_connection (make.make_connection_receiver device_id config)

    -- The branches on the kind of media.
    make_flow : String → NmosSender L → SenderMedia L → Expected Item
    make_flow device_id config (video_info video) =
        make.make_video_flow device_id config.source.id config.flow config.flow_extra
          config.media_type video
    make_flow device_id config (audio_info audio) =
        make.make_audio_flow device_id config.source.id config.flow audio

    unfoldable pub add_sender : String → NmosSender L → Action (Model L nmos) (Unit {0})
    unfolding make_flow
    add_sender device_id config = do
      source ← lift (make.make_source device_id config)
      insert_item L nmos of_node source
      flow ← lift (make_flow device_id config config.media)
      insert_item L nmos of_node flow
      insert_item L nmos of_node (make.make_sender device_id config)
      insert_item L nmos of_connection (make.make_connection_sender device_id config)

    unfoldable pub modify_device : NmosDevice → Action (Model L nmos) (Unit {0})
    modify_device config =
        modify_resource_after L nmos of_node config.id (λ _. make.make_device config)

    -- The data of the resource are replaced by those of `item`.
    pub replace_data : Part → String → Item → Action (Model L nmos) (Unit {0})
    replace_data p id item =
        modify_resource_after L nmos p id (λ old. with_data old (item_data item))

    unfoldable pub modify_sender : String → NmosSender L → Action (Model L nmos) (Unit {0})
    unfolding replace_data make_flow
    modify_sender device_id config = do
      new_source ← lift (make.make_source device_id config)
      replace_data of_node (item_id new_source) new_source
      new_flow ← lift (make_flow device_id config config.media)
      replace_data of_node (item_id new_flow) new_flow
      replace_data of_node config.id (make.make_sender device_id config)
      replace_data of_connection config.id (make.make_connection_sender device_id config)

  unfoldable pub modify_device_sub_resources :
      String → List String → List String → Action (Model L nmos) (Unit {0})
  modify_device_sub_resources device_id receivers senders =
      modify_resource_after L nmos of_node device_id (λ item. with_data item (
        set_field (set_field (item_data item) "receivers" (of_elements receivers)) "senders"
          (of_elements senders)))

  -- BST_ENFORCE(has_resource(...))
  unfoldable pub must_have : String → ResourceType → Action (Model L nmos) (Unit {0})
  must_have id type m =
      (m, if has L nmos id type m then ok tt else unexpected (other "NMOS resource was not found."))

  unfoldable pub remove_resource : String → ResourceType → Action (Model L nmos) (Unit {0})
  remove_resource id type = do
    must_have id type
    if type_eq type device then erase_device L nmos id else (do
      erase_item L nmos of_node id
      if type_eq type receiver || type_eq type sender
          then erase_item L nmos of_connection id
          else pure tt)
