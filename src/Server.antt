-- ===== src/Server.antt =====
-- server.hpp and server.cpp: the clients that are connected to this node, their heartbeats, and the
-- messages that they send.
pub mod Sweep
pub mod Alive
pub mod Messages
pub mod Steps
pub mod Handshake
pub mod Spec
pub mod Start
pub mod Timing
pub mod Ledger
pub mod Faults
pub mod Bundles
pub mod Round
use dave_coin.Base.{ℕ, List, [], ◌∷◌, Bool, true, false, none, some, ◌==◌, if◌then◌else◌}
use dave_coin.Bytes.{Bytes, Outcome, ok, throws, fault, not_accepted}
use dave_coin.Crypto.{Crypto}
use dave_coin.Block.{Block}
use dave_coin.Client.{connect_to_server}
use dave_coin.Dict.{Dict, same_bytes, lookup, insert, erase}
use dave_coin.Node.{Node, NServer, print, new_client, killed_client, server_text, server_invalid}
use dave_coin.Packet.{
  EncodedPacket, DecodedPacket, read_header, decode_simple_string, client_heartbeat, client_poke,
  simple_string, broadcast_tx, serialize_mined_block,
}
use dave_coin.Tcp.{Tcp}

module _ ⦃t : Tcp⦄ where
  -- `NodeServer::ClientDisconnected`.
  unfoldable pub client_disconnected : t.Client → Node → Node
  unfolding print
  client_disconnected client node = print (killed_client (t.get_ip client)) node

  -- The body of the sweep's `if`: no heartbeat came from this address.
  unfoldable pub drop_client : Bytes → t.Client → Node → Node
  unfolding client_disconnected
  drop_client ip client node =
      let node' = client_disconnected client node in
      let s = node'.server in
      record node' {
        server = record s {
          tserver = t.kill_client s.tserver client;
          connected_clients = erase ip s.connected_clients;
        };
      }

  -- The `for` loop over the clients that are connected when it starts.
  unfoldable pub sweep_loop : Dict t.Client → Node → Node
  unfolding drop_client
  sweep_loop [] node = node
  sweep_loop ((ip, client) ∷ rest) node = elim (lookup ip node.server.client_heartbeats) [
    | some _ ↦ sweep_loop rest node
    | none ↦ sweep_loop rest (drop_client ip client node)
  ]

  -- One round of `start_heartbeat_loop`.
  unfoldable pub sweep : Node → Node
  unfolding sweep_loop
  sweep node =
      let node' = sweep_loop node.server.connected_clients node in
      record node' { server = record (node'.server) { client_heartbeats = [] } }

  -- One round of `start_client_loop`, for the client that `acceptClient` returned and the TCP server
  -- that it left.
  unfoldable pub accept : t.Client → t.Server → Node → Outcome Node
  unfolding print
  accept client tserver node =
      if t.is_connected client
      then (let node' = print (new_client (t.get_ip client)) node in
          let s = node'.server in
          ok (record node' {
            server = record s {
              tserver = tserver;
              connected_clients = insert (t.get_ip client) client s.connected_clients;
              client_heartbeats = insert (t.get_ip client) true s.client_heartbeats;
            };
          }))
      else throws not_accepted

  -- The loop over `packet.targets`.
  unfoldable pub send_to : List t.Client → Bytes → t.Server → t.Server
  send_to [] serial s = s
  send_to (client ∷ targets) serial s = send_to targets serial (t.send_to_client s client serial)

  unfoldable pub send_message : EncodedPacket t.Client → NServer → NServer
  unfolding send_to
  send_message packet s = record s { tserver = send_to packet.targets packet.serial s.tserver }

  unfoldable pub send_message_to_all_clients : EncodedPacket t.Client → NServer → NServer
  send_message_to_all_clients packet s = record s {
    tserver = t.send_to_all_clients s.tserver packet.serial;
  }

  unfoldable pub show_text : Outcome (DecodedPacket Bytes) → Node → Outcome Node
  unfolding print
  show_text (ok p) node = ok (print (server_text p.payload) node)
  show_text (throws e) node = throws e
  show_text fault node = fault

  -- The `switch` of `NodeServer::ReceiveMessage` on the packet's type.
  unfoldable pub dispatch : t.Client → Bytes → ℕ → Node → Outcome Node
  unfolding show_text
  dispatch client packet_raw pt node =
      let s = node.server in
      if pt == client_heartbeat
      then ok (record node {
        server = record s { client_heartbeats = insert (t.get_ip client) true s.client_heartbeats };
      })
      else if pt == client_poke
      then ok (connect_to_server (t.get_ip client) node)
      else if pt == simple_string
      then show_text (decode_simple_string packet_raw) node
      else if pt == broadcast_tx
      then ok node
      else ok (print server_invalid node)

  abbrev with_type : (ℕ → Outcome Node) → Outcome ℕ → Outcome Node
  with_type f (ok pt) = f pt
  with_type f (throws e) = throws e
  with_type f fault = fault

  -- `NodeServer::ReceiveMessage`.
  unfoldable pub receive_message : t.Client → Bytes → Node → Outcome Node
  unfolding dispatch
  receive_message client packet_raw node =
      with_type (λ pt. dispatch client packet_raw pt node) (read_header packet_raw)

module _ ⦃t : Tcp⦄ ⦃c : Crypto⦄ where
  unfoldable pub broadcast_block : Block c.PublicKey → NServer → NServer
  unfolding send_message_to_all_clients
  broadcast_block b s = send_message_to_all_clients (serialize_mined_block b) s
