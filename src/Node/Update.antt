-- ===== src/Node/Update.antt =====
-- nmos_controller.cpp and nmos_impl.cpp: the change of a receiver and of its connection.
pub mod Restaged
use nmos_sender_receiver_fra.Prelude.{String}
use nmos_sender_receiver_fra.Libraries.{Libraries}
use nmos_sender_receiver_fra.Configuration.{NmosReceiver}
use nmos_sender_receiver_fra.Node.Action.{Action, ◌>>=◌, ◌>>◌, reading}
use nmos_sender_receiver_fra.Node.Api.{Nmos}
use nmos_sender_receiver_fra.Node.Controller.{
  of_node, of_connection, Model, find_resource_after, modify_resource_after,
}
use nmos_sender_receiver_fra.Node.Impl.{Makers, replace_data}
use nmos_sender_receiver_fra.Node.Transport.{WebValues, update_connection_receiver_staged_params}

module _ (L : Libraries) (nmos : Nmos L) (W : WebValues L) where
  open L use {Web}
  open nmos use {item_data, with_data}
  open W use {member, set_member}

  -- What is active is staged again, and then the configuration.
  restaged : Web → NmosReceiver → Web → Web
  restaged version config content =
      let stamped = set_member content "version" version in
      let active = set_member stamped "endpoint_staged" (member stamped "endpoint_active") in
      set_member active "endpoint_staged" (
        update_connection_receiver_staged_params L W version config
          (member active "endpoint_staged"))

  -- `version` is nmos::make_version().
  unfoldable pub modify_connection_receiver : Web → NmosReceiver → Action (Model L nmos) (Unit {0})
  unfolding restaged
  modify_connection_receiver version config = do
    connection_receiver ← reading (find_resource_after L nmos of_connection config.id)
    modify_resource_after L nmos of_connection config.id
        (λ resource. with_data resource (restaged version config (item_data connection_receiver)))

  unfoldable pub modify_receiver :
      Makers L nmos → Web → String → NmosReceiver → Action (Model L nmos) (Unit {0})
  modify_receiver make version device_id config = do
    replace_data L nmos make of_node config.id (make.make_receiver device_id config)
    modify_connection_receiver version config
