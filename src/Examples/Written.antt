-- ===== src/Examples/Written.antt =====
-- A JSON library whose values are written and read, and the elements' configurations there.
use nmos_sender_receiver_fra.Prelude.{
  String, ◌≡◌, refl, ap, Bool, true, false, Option, none, some, List, [], ◌∷◌, str_eq,
  if◌then◌else◌,
}
use nmos_sender_receiver_fra.Prelude.Int.{ℤ, pos, wrap}
use nmos_sender_receiver_fra.Expected.{ok, undefined}
use nmos_sender_receiver_fra.Json.Api.{JsonApi}
use nmos_sender_receiver_fra.Libraries.{Libraries}
use nmos_sender_receiver_fra.Configuration.{progressive}
use nmos_sender_receiver_fra.Stdlib.Stoi.{stoi, is_space, digit?}
use nmos_sender_receiver_fra.Stdlib.Hex.{hex_char}
use nmos_sender_receiver_fra.Serialization.SenderId.{synthetize_id, last_char, replace_last}
use nmos_sender_receiver_fra.Serialization.Sender.{nmos_sender_from_json, to_interlace_mode}
use nmos_sender_receiver_fra.Serialization.Receiver.{nmos_receiver_from_json}
use nmos_sender_receiver_fra.Plugin.Fields.{
  ConfigFields, default_sender_fields, default_audio_receiver_fields,
}
use nmos_sender_receiver_fra.Plugin.Configs.{
  Writer, create_receiver_config, create_video_sender_config, create_audio_sender_config,
}
use nmos_sender_receiver_fra.Plugin.Configs.Accepted.{
  lookup, Writes, video_sender, audio_sender, create_receiver_config-read,
  create_video_sender_config-read, create_audio_sender_config-read,
}

mutual
  data Doc : Type 0 where
    nothing : Doc
    words : String → Doc
    integer : ℤ → Doc
    items : Docs → Doc
    fields : Entries → Doc

  data Docs : Type 0 where
    stop : Docs
    item : Doc → Docs → Docs

  data Entries : Type 0 where
    finish : Entries
    entry : String → Doc → Entries → Entries

abbrev to_docs : List Doc → Docs
to_docs [] = stop
to_docs (d ∷ ds) = item d (to_docs ds)

abbrev of_docs : Docs → List Doc
of_docs stop = []
of_docs (item d ds) = d ∷ of_docs ds

abbrev to_entries : List (String × Doc) → Entries
to_entries [] = finish
to_entries ((k, v) ∷ es) = entry k v (to_entries es)

abbrev find_entry : String → Entries → Option Doc
find_entry key finish = none
find_entry key (entry k v es) =
    let rest = find_entry key es in if str_eq k key then some v else rest

abbrev get_member : Doc → String → Option Doc
get_member (fields es) key = find_entry key es
get_member _ key = none

abbrev get_words : Doc → Option String
get_words (words s) = some s
get_words _ = none

abbrev get_integer : Doc → Option ℤ
get_integer (integer n) = some n
get_integer _ = none

abbrev get_items : Doc → Option (List Doc)
get_items (items ds) = some (of_docs ds)
get_items _ = none

abbrev present : {A : Type 0} → Option A → Bool
present none = false
present (some a) = true

abbrev mapped : {A B : Type 0} → (A → B) → Option A → Option B
mapped f none = none
mapped f (some a) = some (f a)

abbrev or_empty : Option (List Doc) → List Doc
or_empty none = []
or_empty (some ds) = ds

abbrev docs : JsonApi
docs = record {
  Json = Doc;
  Float = ℤ;
  find_member = get_member;
  is_null = λ d. false;
  is_number = λ d. present (get_integer d);
  is_string = λ d. present (get_words d);
  is_boolean = λ d. false;
  is_array = λ d. present (get_items d);
  get_number = get_integer;
  get_word = λ w d. mapped (wrap w) (get_integer d);
  get_float = get_integer;
  get_string = get_words;
  get_boolean = λ d. none;
  elements = λ d. or_empty (get_items d);
}

abbrev writer : Writer docs
writer = record {
  text = words;
  number = integer;
  array = λ ds. items (to_docs ds);
  object = λ es. fields (to_entries es);
  set_member = λ d key v. d;
  dump = λ d. "";
  parse = λ s. none;
  contents = λ s. none;
}

of_docs-to_docs : (ds : List Doc) → of_docs (to_docs ds) ≡ ds
of_docs-to_docs [] = refl
of_docs-to_docs (d ∷ ds) = ap (λ x. d ∷ x) (of_docs-to_docs ds)

find_entry-to_entries :
    (es : List (String × Doc)) (key : String) → find_entry key (to_entries es) ≡ lookup key es
find_entry-to_entries [] key = refl
find_entry-to_entries ((k, v) ∷ es) key =
    ap (λ x. if str_eq k key then some v else x) (find_entry-to_entries es key)

writes : Writes docs writer
writes = record {
  member = λ ms key. find_entry-to_entries ms key;
  text_string = λ s. refl;
  text_null = λ s. refl;
  text_get = λ s. refl;
  number_number = λ n. refl;
  number_get = λ n. refl;
  number_word = λ w n. refl;
  float_of = λ n. n;
  number_float = λ n. refl;
  array_array = λ vs. refl;
  array_elements = λ vs. of_docs-to_docs vs;
}

abbrev libraries : Libraries
libraries = record {
  json = docs;
  Rational = ℤ × ℤ;
  make_rational = λ n d. some (n, d);
  of_int = λ n. (n, pos 1);
  Web = Doc;
  web_null = nothing;
  to_web = λ v. some v;
  float_zero = pos 0;
  parse = λ s. none;
  payload_type_video_default = 96;
  payload_type_audio_default = 97;
  payload_type_data_default = 100;
  payload_type_mux_default = 98;
}

-- Fields of memory that is zeroed.
abbrev pub zeroed : ConfigFields
zeroed = record {
  node = record { id = ""; configuration_location = "" };
  device = record { id = ""; label = ""; description = "" };
  is_audio = false;
  video_media_fields = record {
    width = pos 0;
    height = pos 0;
    frame_rate_num = pos 0;
    frame_rate_den = pos 0;
    sampling = "";
    structure = "";
  };
  audio_sender_fields = record {
    format = "";
    number_of_channels = pos 0;
    sampling_rate = pos 0;
    packet_time = pos 0;
  };
  id = "";
  label = "";
  description = "";
  network = record {
    source_address = "";
    interface_name = "";
    destination_address = "";
    destination_port = pos 0;
  };
  interface_name = "";
  address = "";
}

abbrev sending : ConfigFields
sending = default_sender_fields zeroed

abbrev flow_id : String
flow_id = "1c920570-e0b4-4637-b02c-26c9d4275c72"

abbrev source_id : String
source_id = "1c920570-e0b4-4637-b02c-26c9d4275c73"

makes_flow : synthetize_id sending.id 1 ≡ ok flow_id
unfolding synthetize_id last_char replace_last stoi is_space digit? hex_char default_sender_fields
makes_flow = refl

makes_source : synthetize_id sending.id 2 ≡ ok source_id
unfolding synthetize_id last_char replace_last stoi is_space digit? hex_char default_sender_fields
makes_source = refl

create_receiver_config-read_example :
    nmos_receiver_from_json libraries
      (create_receiver_config docs writer (default_audio_receiver_fields zeroed))
    ≡ undefined
unfolding default_audio_receiver_fields
create_receiver_config-read_example =
    create_receiver_config-read libraries writer writes (default_audio_receiver_fields zeroed)

create_video_sender_config-read_example :
    nmos_sender_from_json libraries (create_video_sender_config docs writer sending)
    ≡ ok
        (video_sender libraries writer writes sending flow_id source_id (pos 50, pos 1) progressive)
unfolding default_sender_fields to_interlace_mode
create_video_sender_config-read_example =
    create_video_sender_config-read libraries writer writes sending flow_id source_id
      (pos 50, pos 1) progressive makes_flow makes_source refl refl

create_audio_sender_config-read_example :
    nmos_sender_from_json libraries (create_audio_sender_config docs writer sending)
    ≡ ok (audio_sender libraries writer writes sending flow_id source_id "audio/L16" 16)
unfolding default_sender_fields
create_audio_sender_config-read_example =
    create_audio_sender_config-read libraries writer writes sending flow_id source_id makes_flow
      makes_source
