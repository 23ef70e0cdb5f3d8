-- ===== src/Server/Alive.antt =====
-- What keeps a client connected from one round of the heartbeat loop to the next.
use dave_coin.Base.{subst, sym, ◌≡◌, refl, ap, ◌∙◌, [], Bool, true, none, some, arith}
use dave_coin.Bytes.{Bytes, ok}
use dave_coin.Dict.{Dict, same_bytes_iff, lookup, insert, lookup-insert}
use dave_coin.Node.{new_client, Node, print}
use dave_coin.Server.{sweep, accept, receive_message, dispatch}
use dave_coin.Server.Sweep.{answered, connection, heard, connection-sweep}
use dave_coin.Packet.{serialize_heartbeat, client_heartbeat, read_header}
use dave_coin.Packet.Header.{read_header-packet_of}
use dave_coin.Tcp.{Tcp}

header_heartbeat :
    (C : Type 0) → read_header (serialize_heartbeat {C = C}).serial ≡ ok client_heartbeat
unfolding serialize_heartbeat
header_heartbeat C = read_header-packet_of C client_heartbeat [] (omega arith)

lookup-insert_same :
    {V : Type 0} (k : Bytes) (v : V) (m : Dict V) → lookup k (insert k v m) ≡ some v
lookup-insert_same k v m = lookup-insert k k v m ∙ ground (arith, same_bytes_iff k k)

ok-injective : {A : Type 0} {a b : A} → ok a ≡ ok b → a ≡ b
ok-injective e = cc

module _ ⦃t : Tcp⦄ where
  -- Two rounds with no heartbeat between them leave no client connected.
  pub connection-sweep_twice :
      (node : Node) (ip : Bytes) → connection ip (sweep (sweep node)) ≡ none
  unfolding sweep lookup
  connection-sweep_twice node ip = connection-sweep (sweep node) ip ∙ refl

  heard-insert :
      (ip : Bytes) (b : Bool) (node : Node)
      → heard ip (record node {
        server = record (node.server) {
          client_heartbeats = insert ip b node.server.client_heartbeats;
        };
      })
        ≡ true
  heard-insert ip b node = ap answered (lookup-insert_same ip b node.server.client_heartbeats)

  -- A client that is connected when it is accepted counts as heard: it is connected after the next round.
  pub connection-sweep-accept :
      (client : t.Client) (tserver : t.Server) (node : Node)
      → t.is_connected client ≡ true
      → (node' : Node) × (accept client tserver node ≡ ok node')
        × (connection (t.get_ip client) (sweep node') ≡ some client)
  unfolding accept print
  connection-sweep-accept client tserver node h =
      let ip = t.get_ip client in
      let node1 = print (new_client ip) node in
      let s = node1.server in
      let node' : Node = record node1 {
        server = record s {
          tserver = tserver;
          connected_clients = insert ip client s.connected_clients;
          client_heartbeats = insert ip true s.client_heartbeats;
        };
      } in
      let counted : heard ip node' ≡ true =
        ap answered (lookup-insert_same ip true s.client_heartbeats) in
      let there : connection ip node' ≡ some client =
        lookup-insert_same ip client s.connected_clients in
      (node', rw h refl, connection-sweep node' ip ∙ ground (arith, counted, there))

  receive_message-heartbeat :
      (client : t.Client) (node : Node)
      → receive_message client (serialize_heartbeat {C = t.Client}).serial node
        ≡ ok (record node {
          server = record (node.server) {
            client_heartbeats = insert (t.get_ip client) true node.server.client_heartbeats;
          };
        })
  unfolding receive_message dispatch
  receive_message-heartbeat client node = rw (header_heartbeat t.Client) refl

  -- Once the server has handled a heartbeat, its client was heard.
  pub heard-heartbeat :
      (client : t.Client) (node node' : Node)
      → receive_message client (serialize_heartbeat {C = t.Client}).serial node ≡ ok node'
      → heard (t.get_ip client) node' ≡ true
  heard-heartbeat client node node' e =
      let same : (record node {
        server = record (node.server) {
          client_heartbeats = insert (t.get_ip client) true node.server.client_heartbeats;
        };
      })
          ≡ node' =
        ok-injective (sym (receive_message-heartbeat client node) ∙ e) in
      subst (λ n. heard (t.get_ip client) n ≡ true) same (heard-insert (t.get_ip client) true node)

  -- The server handles the message of the client's heartbeat loop, and then the next round keeps the
  -- connection of the client's address, if it has one.
  pub connection-sweep-heartbeat :
      (client : t.Client) (node : Node)
      → (node' : Node) × (receive_message client (serialize_heartbeat {C = t.Client}).serial node
          ≡ ok node')
        × (connection (t.get_ip client) (sweep node') ≡ connection (t.get_ip client) node)
  connection-sweep-heartbeat client node =
      let ip = t.get_ip client in
      let s = node.server in
      let node' : Node = record node {
        server = record s { client_heartbeats = insert ip true s.client_heartbeats };
      } in
      let h : heard ip node' ≡ true = heard-insert ip true node in
      (node', receive_message-heartbeat client node, connection-sweep node' ip ∙ ground (arith, h))
