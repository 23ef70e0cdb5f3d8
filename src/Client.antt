-- ===== src/Client.antt =====
-- client.hpp and client.cpp: the servers that this node is connected to, and the messages that come from
-- them.
pub mod Connect
pub mod Dedup
pub mod Effects
pub mod Faults
pub mod Init
pub mod Loops
pub mod Messages
use dave_coin.Base.{suc, ℕ, List, [], ◌∷◌, ◌++◌, Bool, true, false, ◌==◌, if◌then◌else◌}
use dave_coin.Bytes.{Bytes, Outcome, ok, throws, fault}
use dave_coin.Crypto.{Crypto}
use dave_coin.Block.{Block, Garbage}
use dave_coin.Dict.{same_bytes}
use dave_coin.Node.{
  client_disconnected, has_client_with_ip, Node, NClient, print, no_connection, connected,
  client_text, client_block, client_invalid,
}
use dave_coin.Packet.{
  DecodedPacket, read_header, decode_simple_string, decode_mined_block, serialize_client_poke,
  simple_string, mined_block,
}
use dave_coin.Tcp.{Tcp}
use dave_coin.Tx.Input.{TxInput}
use dave_coin.Tx.Output.{TxOutput}

-- The loop over `active_clients` in `ConnectToServer`.
unfoldable pub is_active : Bytes → List NClient → Bool
is_active ip [] = false
is_active ip (ec ∷ rest) = if same_bytes ec.server_ip ip then true else is_active ip rest

-- The thread for `ip` has left `connecting`.
unfoldable pub finished : Bytes → List Bytes → List Bytes
finished ip [] = []
finished ip (j ∷ rest) =
    let others = j ∷ finished ip rest in if same_bytes j ip then rest else others

module _ ⦃t : Tcp⦄ where
  -- `NodeClient::ConnectToServer`: no second connection to an active server, else a new thread.
  unfoldable pub connect_to_server : Bytes → Node → Node
  unfolding is_active
  connect_to_server ip node =
      if is_active ip node.active_clients
      then node
      else record node { connecting = node.connecting ++ ip ∷ [] }

  -- The loop over the lines of peers.dat in `NodeClient::Init`. `busy k` is what the node's other threads do
  -- to it before the line with number `k` reaches `ConnectToServer`, those that earlier lines started too.
  unfoldable pub connect_peers : (ℕ → Node → Node) → List Bytes → Node → Node
  unfolding connect_to_server
  connect_peers busy [] node = node
  connect_peers busy (ip ∷ ips) node =
      connect_peers (λ k. busy (suc k)) ips (connect_to_server ip (busy 0 node))

  -- `initialize_client_connection` up to its threads' loops. `success` is what `connectTo` answers, and
  -- `my_ip` what GetMyIP does.
  unfoldable pub initialize_client_connection : Bool → Bytes → Bytes → Node → Node
  unfolding print finished has_client_with_ip
  initialize_client_connection success my_ip ip node =
      let node' = record node { connecting = finished ip node.connecting } in
      let listening = has_client_with_ip ip node.server.connected_clients in
      let poke = (ip, serialize_client_poke my_ip) ∷ [] in
      if success
      then (let node'' = print (connected ip) node' in
          record node'' {
            active_clients = node''.active_clients ++ record { server_ip = ip; alive = true } ∷ [];
            sent = node''.sent ++ (if listening then [] else poke);
          })
      else print (no_connection ip) node'

  -- `NodeClient::Disconnected`, which the TCP client calls when its connection is closed.
  unfoldable pub disconnected : Node → Node
  unfolding print
  disconnected node = print client_disconnected node

  unfoldable pub show_text : Outcome (DecodedPacket Bytes) → Node → Outcome Node
  unfolding print
  show_text (ok p) node = ok (print (client_text p.payload) node)
  show_text (throws e) node = throws e
  show_text fault node = fault

module _ ⦃t : Tcp⦄ ⦃c : Crypto⦄ where
  unfoldable pub show_block : Outcome (DecodedPacket (Block c.PublicKey)) → Node → Outcome Node
  unfolding print
  show_block (ok p) node = ok (print client_block node)
  show_block (throws e) node = throws e
  show_block fault node = fault

  -- `NodeClient::BroadcastTx`, whose body is empty.
  unfoldable pub broadcast_tx :
      List TxInput → List (TxOutput c.PublicKey) → c.PublicKey → c.PrivateKey → Node → Node
  broadcast_tx inputs outputs public_key private_key node = node

  unfoldable pub dispatch : Garbage → ℕ → Bytes → ℕ → Node → Outcome Node
  unfolding show_text show_block
  dispatch g now packet_raw pt node =
      if pt == simple_string
      then show_text (decode_simple_string packet_raw) node
      else if pt == mined_block
      then show_block (decode_mined_block g now packet_raw) node
      else ok (print client_invalid node)

  abbrev with_type : (ℕ → Outcome Node) → Outcome ℕ → Outcome Node
  with_type f (ok pt) = f pt
  with_type f (throws e) = throws e
  with_type f fault = fault

  -- `NodeClient::ReceiveMessage`.
  unfoldable pub receive_message : Garbage → ℕ → Bytes → Node → Outcome Node
  unfolding dispatch
  receive_message g now packet_raw node =
      with_type (λ pt. dispatch g now packet_raw pt node) (read_header packet_raw)
