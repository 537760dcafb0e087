-- ===== src/Lib.antt =====
-- The NMOS sender and receiver framework: an application gives JSON configurations of devices,
-- senders and receivers to a client, which keeps an NMOS node and calls the application back when a
-- controller patches or activates a connection.
--
-- Parts, paths from the repository's root:
-- - Expected: cpp/libs/bisect_expected, results with errors. `Expected` has a case for a value, for
--   an error, for an exception that leaves a function and for undefined behaviour; the macros
--   BST_ASSIGN and BST_CHECK are its bind, so the models are do blocks.
-- - Json: cpp/libs/bisect_json, the readers of JSON members. Json/Api is the interface of
--   nlohmann::json, which is not in the repository: the readers take it as a parameter, and the
--   hypothesis `Converts` is its documented behaviour. Json/Access holds the readers, Json/Select
--   the selectors.
-- - Libraries, Configuration: the other libraries' operations as one record, and the records of
--   cpp/libs/bisect_nmoscpp/lib/include/bisect/nmoscpp/configuration.h.
-- - Serialization: cpp/libs/ossrf_nmos_api/lib/src/serialization, one function per from_json
--   function; Serialization/SenderId has `synthetize_id` of sender.cpp. An `assign_if` whose result
--   the code ignores returns its result beside the member's new value, and the result is dropped.
-- - Context: cpp/libs/ossrf_nmos_api/lib/src/context and resources: the map of resources by device,
--   the objects of senders and receivers, and the handlers of the node's events. A callback is the
--   application's, so a call of it is recorded. Objects are shared by pointers; each stands in the
--   map once, so a changed object is stored where the first object of its id stands.
-- - Node: cpp/libs/bisect_nmoscpp/lib/src/nmos_controller.cpp (Node/Controller: the changes of the
--   node's resources, Node/Transport: connections and their transport parameters, Node/Make: the
--   other make_ functions, Node/Update: the change of a receiver, Node/TransportFile: transport
--   files, with utils.cpp beside it), nmos_impl.cpp (Node/Impl), nmos_client.cpp (Node/Client) and
--   utils.h (Node/Utils) of cpp/libs/ossrf_nmos_api/lib/src. A call that changes a state is an
--   `Action`, from a state to a state and a result, so a change is kept where an error follows it.
--   Node/Api is the interface of nmos-cpp's resources, `WebValues` that of cpprest's values,
--   `Factory` the functions of nmos-cpp that make resources and `Sessions` those that make SDP
--   files. Node/Impl takes the controller's make_ functions as the interface `Makers`, which
--   `makers` of Node/Make fills. The client calls the controller in Node/Client, and the node's
--   events reach the map of the same resources in Context/EventHandler.
-- - Stream: cpp/libs/ossrf_gstreamer_api/lib/src, sender_plugin.cpp (Stream/Sender) and
--   receiver_plugin.cpp (Stream/Receiver): what GStreamer's senders and receivers read of the same
--   configurations.
-- - Sdp: cpp/libs/bisect_sdp/lib/src: MAC addresses and clocks of clocks.cpp (Sdp/Mac, Sdp/Clocks),
--   the settings of settings.h (Sdp/Settings) and reader.cpp (Sdp/Reader). `Fmt` is the interface
--   of the fmt library, `SdpLibrary` that of the SDP parser and of nmos-cpp's reading of its
--   result.
-- - Plugin: cpp/libs/gst_nmos_plugins/src, GStreamer's elements: gst_nmos_sender_plugin.cpp
--   (Plugin/Sender), gst_nmos_video_receiver_plugin.cpp (Plugin/VideoReceiver),
--   gst_nmos_audio_receiver_plugin.cpp (Plugin/AudioReceiver) and utils.cpp (Plugin/Fields,
--   Plugin/Configs); Plugin/Properties has the properties of the elements. The state of an element
--   has its members and what its calls leave in GStreamer; what GStreamer returns is an argument.
--   Plugin/VideoReceiver/Steps has the events of an element for video as a step relation: buffers,
--   the check of every second, activations and changes of state. The elements get their settings
--   from Sdp/Reader, and their configurations are read by Serialization.
-- - Stdlib: `std::stoi` and hexadecimal digits. Prelude: shared names and tests.
-- - Examples: a concrete JSON library and the theorems at concrete inputs.
--
-- All loops are structural recursion over lists or texts; no fuel is used. A std::string is a native
-- text whose characters stand for bytes. Integers of the code that are only copied are unbounded;
-- a byte of a MAC address, a port of 16 bits, a payload type and the unsigned width and height of a
-- flow are remainders. Times are microseconds of a clock that does not go back.
--
-- An exception that reaches a noexcept function ends the process; the model leaves it at `thrown`.
--
-- A member with no initial value is undefined where it is copied out: a leg's rtp_enabled
-- (Serialization) and a sender's destination_port (Stream). A receiver's source_port is none until the
-- SDP file's port is assigned, and undefined where settings are returned without one; the copies before
-- that are taken to keep it as it is.
--
-- The states that GStreamer's parent class gives an element and what is in it are not modelled: where
-- udp_src was let run and not stopped, a buffer may come.
--
-- Not modelled: the start and the end of the node, the base controller's callbacks, the SDP
-- builder, the registration of GStreamer's elements and the pipelines of the GStreamer API, the
-- logger and the demos.
pub mod Prelude
pub mod Expected
pub mod Stdlib
pub mod Json
pub mod Libraries
pub mod Configuration
pub mod Serialization
pub mod Context
pub mod Sdp
pub mod Node
pub mod Stream
pub mod Plugin
pub mod Examples
