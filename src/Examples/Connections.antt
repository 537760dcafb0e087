-- ===== src/Examples/Connections.antt =====
-- Values of cpprest as trees, and the resources of a sender and of a receiver there.
use nmos_sender_receiver_fra.Prelude.{
  ℕ, zero, suc, String, ◌≡◌, refl, ap, ◌∙◌, eq_refl, Option, Bool, true, false, none, some, List,
  [], ◌∷◌, str_eq, ◌==◌, if◌then◌else◌,
}
use nmos_sender_receiver_fra.Prelude.Int.{ℤ, pos}
use nmos_sender_receiver_fra.Libraries.{Libraries}
use nmos_sender_receiver_fra.Configuration.{
  NetworkLeg, NmosSender, NmosReceiver, video, video_raw, video_info, progressive, NmosDevice,
  AudioSenderInfo, VideoSenderInfo,
}
use nmos_sender_receiver_fra.Context.ResourceMap.{sender}
use nmos_sender_receiver_fra.Node.Api.{Nmos}
use nmos_sender_receiver_fra.Node.Transport.{
  WebValues, make_connection_sender, make_connection_receiver,
}
use nmos_sender_receiver_fra.Node.Transport.Params.{Assigns}
use nmos_sender_receiver_fra.Node.Transport.Staged.{IsStaged, endpoint, make_connections-AreStaged}
use nmos_sender_receiver_fra.Expected.{ok, Safe}
use nmos_sender_receiver_fra.Node.Make.{
  Factory, make_device, make_receiver, make_sender, make_source, do_make_source, set_label,
  set_description, make_audio_flow, make_video_flow,
}
use nmos_sender_receiver_fra.Node.Make.Labels.{IsLabelled, made-AreLabelled}
use nmos_sender_receiver_fra.Node.Controller.{Model, of_connection, part, erase_item}
use nmos_sender_receiver_fra.Node.Controller.Erased.{Erases, IsErased, erase_item-IsErased}
use nmos_sender_receiver_fra.Node.Update.{modify_connection_receiver}
use nmos_sender_receiver_fra.Node.Update.Restaged.{Modifies, modify_connection_receiver-IsStaged}
use nmos_sender_receiver_fra.Examples.Configs.{libraries}

pub data Tree : Type 0 where
  null : Tree
  text : String → Tree
  number : ℤ → Tree
  flag : Bool → Tree
  tree : (String → Tree) → (ℕ → Tree) → Tree

abbrev pub member : Tree → String → Tree
member (tree ms is) key = ms key
member _ key = null

abbrev pub item : Tree → ℕ → Tree
item (tree ms is) i = is i
item _ i = null

abbrev pub is_null : Tree → Bool
is_null null = true
is_null _ = false

abbrev pub set_member : Tree → String → Tree → Tree
set_member o key v = tree (λ k. if str_eq key k then v else member o k) (item o)

abbrev pub set_item : Tree → ℕ → Tree → Tree
set_item o i v = tree (member o) (λ j. if i == j then v else item o j)

abbrev pub of_list : List Tree → ℕ → Tree
of_list [] i = null
of_list (t ∷ ts) zero = t
of_list (t ∷ ts) (suc i) = of_list ts i

abbrev pub of_members : List (String × Tree) → Tree
of_members [] = null
of_members ((k, v) ∷ ms) = set_member (of_members ms) k v

abbrev pub trees : Libraries
trees = record libraries { Web = Tree; web_null = null; to_web = λ v. some null }

abbrev pub web : WebValues trees
web = record {
  is_null = is_null;
  string = text;
  number = number;
  boolean = flag;
  array = λ ts. tree (λ k. null) (of_list ts);
  object = of_members;
  member = member;
  set_member = set_member;
  item = item;
  set_item = set_item;
}

pub assigns : Assigns trees web
assigns = record { member_set = λ o key other v. refl; item_set = λ o i j v. refl }

abbrev pub changed : (Tree → Tree) → Option Tree → Option Tree
changed f none = none
changed f (some t) = some (f t)

abbrev pub is_some : Option Tree → Bool
is_some none = false
is_some (some t) = true

abbrev pub resources : Nmos trees
resources = record {
  Item = Tree;
  item_id = λ t. "";
  item_type = λ t. sender;
  sub_resources = λ t. [];
  item_data = λ t. t;
  with_data = λ t d. d;
  set_field = set_member;
  of_elements = λ es. null;
  versioned = λ t. t;
  Store = String → Option Tree;
  insert_resource = λ s t. (λ id. if str_eq "" id then some t else s id, true);
  modify_resource = λ s id f. (λ k. if str_eq id k then changed f (s k) else s k, is_some (s id));
  erase_resource = λ s id. (λ k. if str_eq id k then none else s k, 1);
  forget_erased_resources = λ s. s;
  find_resource = λ s id. s id;
  has_resource = λ s id t. is_some (s id);
}

abbrev leg : NetworkLeg
leg = record {
  rtp_enabled = true;
  source_port = none;
  source_ip = some "192.168.1.2";
  destination_ip = some "239.0.0.1";
  destination_port = some (pos 5004);
  interface_name = none;
  interface_ip = none;
}

abbrev full_hd : VideoSenderInfo trees
full_hd = record {
  height = pos 1080;
  width = pos 1920;
  exact_framerate = (pos 50, pos 1);
  chroma_sub_sampling = "YCbCr-4:2:2";
  structure = progressive;
  depth = pos 10;
}

abbrev a_sender : NmosSender trees
a_sender = record {
  meta = record { id = "camera"; label = "camera"; description = "" };
  master_enable = true;
  network = record { primary = leg; secondary = some leg };
  protocol = "";
  format = video;
  grain_rate = (pos 50, pos 1);
  media_type = "video/raw";
  source = record { id = "source"; label = ""; description = "" };
  flow = record { id = "flow"; label = ""; description = "" };
  flow_extra = null;
  media = video_info full_hd;
  payload_type = none;
  forced_sdp = none;
  extra = null;
}

abbrev a_receiver : NmosReceiver
a_receiver = record {
  meta = record { id = "screen"; label = "screen"; description = "" };
  master_enable = false;
  sender_id = some "camera";
  sdp_data = some "v=0";
  network = record { primary = leg; secondary = none };
  protocol = "";
  format = video;
  media_types = video_raw ∷ [];
}

-- A connection with no parameters yet.
abbrev bare : String → Bool → Tree
bare id redundant = null

make_connections-AreStaged_example :
    IsStaged trees web assigns true a_sender.network false null (
      endpoint trees web assigns resources
        (λ x d. refl)
        (make_connection_sender trees web resources (text "1:0") bare a_sender))
    × IsStaged trees web assigns false a_receiver.network true null (
        endpoint trees web assigns resources
          (λ x d. refl)
          (make_connection_receiver trees web resources (text "1:0") bare a_receiver))
make_connections-AreStaged_example =
    make_connections-AreStaged trees web assigns resources (λ x d. refl) (text "1:0") bare a_sender
      a_receiver

abbrev factory : Factory trees resources
factory = record {
  device = λ id node senders receivers. text id;
  receiver = λ id device interfaces format types. text id;
  sender = λ id flow device manifest interfaces. text id;
  manifest = λ id. id;
  video_source = λ id device rate. text id;
  audio_source = λ id device rate channels. text id;
  raw_audio_flow = λ id source device rate bits. text id;
  video_flow = λ id source device rate width height structure. text id;
  components = λ width height. null;
  rational = number;
  merge_patch = λ old patch. patch;
  connection_receiver = bare;
  connection_sender = bare;
  version = text "1:0";
}

abbrev a_device : NmosDevice
a_device = record {
  meta = record { id = "rack"; label = "rack"; description = "the first rack" };
  node_id = "node";
}

abbrev stereo : AudioSenderInfo trees
stereo = record {
  number_of_channels = pos 2;
  bits_per_sample = 24;
  sampling_rate = pos 48000;
  packet_time = 1;
}

abbrev a_source : Tree
a_source = set_member (set_member (text "source") "label" (text "")) "description" (text "")

a_source_lem : make_source trees resources web factory "rack" a_sender ≡ ok a_source
unfolding make_source do_make_source set_label set_description
a_source_lem = refl

made-AreLabelled_example :
    IsLabelled trees resources web a_device.meta
      (make_device trees resources web factory [] [] a_device)
    × IsLabelled trees resources web a_receiver.meta
        (make_receiver trees resources web factory "rack" a_receiver)
    × IsLabelled trees resources web a_sender.meta
        (make_sender trees resources web factory "rack" a_sender)
    × IsLabelled trees resources web a_sender.source a_source
    × Safe
        (IsLabelled trees resources web a_sender.flow)
        (make_audio_flow trees resources web factory "rack" "source" a_sender.flow stereo)
    × Safe (IsLabelled trees resources web a_sender.flow) (
        make_video_flow trees resources web factory "rack" "source" a_sender.flow
          (text "extra")
          "video/raw"
          full_hd)
made-AreLabelled_example =
    made-AreLabelled trees resources web factory assigns (λ x d. refl) "rack" "source" "video/raw"
      (text "extra") a_device a_receiver a_sender stereo full_hd a_source a_source_lem

pub modifies : Modifies trees resources web
modifies = record {
  done = λ s id f x h. ap is_some h;
  modified =
      λ s id f x h. ap (λ b. if b then changed f (s id) else s id) (eq_refl id) ∙ ap (changed f) h;
  kept = λ x d. refl;
  stamped = λ x. refl;
}

-- A node whose only connection is that of the receiver, and has no parameters yet.
abbrev one_connection : Model trees resources
one_connection = record {
  node_resources = λ id. none;
  connection_resources = λ id. if str_eq "screen" id then some null else none;
  shutdown = false;
}

modify_connection_receiver-IsStaged_example :
    ((modify_connection_receiver trees resources web (text "1:0") a_receiver one_connection).1
      ≡ ok tt)
    × (new : Tree) × ((modify_connection_receiver trees resources web
            (text "1:0")
            a_receiver
            one_connection).0.connection_resources
          "screen"
        ≡ some new)
    × IsStaged trees web assigns false a_receiver.network true null (member new "endpoint_staged")
modify_connection_receiver-IsStaged_example =
    modify_connection_receiver-IsStaged trees resources web assigns modifies (text "1:0") a_receiver
      one_connection null refl refl

-- A resource is erased alone.
erasures : Erases trees resources
erasures = record {
  below = λ s id key. str_eq id key;
  self = λ s id. eq_refl id;
  counts = λ s id x h. refl;
  erases = λ s id key. refl;
}

erase_item-IsErased_example :
    (t : Model trees resources) × (erase_item trees resources of_connection "screen" one_connection
      ≡ (t, ok tt))
    × IsErased trees resources erasures of_connection "screen" one_connection t
unfolding part
erase_item-IsErased_example =
    erase_item-IsErased trees resources erasures of_connection "screen" one_connection null refl
      refl
