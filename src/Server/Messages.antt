-- ===== src/Server/Messages.antt =====
-- What a message can change in the state of the server.
use dave_coin.Base.{
  if◌then◌else◌, Bool, ℕ, ◌≡◌, refl, sym, ap, subst, ◌∙◌, true, false, arith, ◌==◌, Bool-cases, inl,
  inr,
}
use dave_coin.Bytes.{Bytes, Outcome, ok, throws, fault}
use dave_coin.Client.{connect_to_server, is_active}
use dave_coin.Dict.{Dict, same_bytes, lookup, insert, lookup-insert}
use dave_coin.Node.{Node, NServer, print}
use dave_coin.Server.{receive_message, dispatch, show_text}
use dave_coin.Server.Sweep.{heard, answered}
use dave_coin.Packet.{
  read_header, DecodedPacket, client_heartbeat, client_poke, simple_string, broadcast_tx,
  decode_simple_string,
}
use dave_coin.Packet.Header.{read_header_total}
use dave_coin.Tcp.{Tcp}

module _ ⦃t : Tcp⦄ where
  -- The connections and the TCP server are as they were, and no address but `ip` was heard anew.
  pub record Keeps (ip : Bytes) (node node' : Node) : Type 0 where
    pub same_connections : node'.server.connected_clients ≡ node.server.connected_clients
    pub same_tserver : node'.server.tserver ≡ node.server.tserver
    pub still_heard : (j : Bytes) → heard j node ≡ true → heard j node' ≡ true
    pub no_other : (j : Bytes) → same_bytes ip j ≡ false → heard j node' ≡ heard j node

  pub answered-insert :
      (ip j : Bytes) (m : Dict Bool)
      → answered (lookup j (insert ip true m))
        ≡ (if same_bytes ip j then true else answered (lookup j m))
  answered-insert ip j m =
      ap answered (lookup-insert ip j true m)
      ∙ elim (Bool-cases (same_bytes ip j)) [ inl y ↦ rw y refl | inr n ↦ rw n refl ]

  -- The server's state when a heartbeat from `ip` has come.
  abbrev pub noted : Bytes → NServer → NServer
  noted ip s = record s { client_heartbeats = insert ip true s.client_heartbeats }

  pub server-connect_to_server :
      (ip : Bytes) (node : Node) → (connect_to_server ip node).server ≡ node.server
  unfolding connect_to_server
  server-connect_to_server ip node = elim (Bool-cases (is_active ip node.active_clients)) [
    | inl y ↦ rw y refl
    | inr n ↦ rw n refl
  ]

  -- If the handler returns, it leaves the server in the state `s`.
  abbrev LeavesServer : NServer → Outcome Node → Type 0
  LeavesServer s (ok node) = node.server ≡ s
  LeavesServer s (throws e) = Unit
  LeavesServer s fault = Unit

  show_text-LeavesServer :
      (r : Outcome (DecodedPacket Bytes)) (node : Node)
      → LeavesServer node.server (show_text r node)
  unfolding show_text print
  show_text-LeavesServer (ok p) node = refl
  show_text-LeavesServer (throws e) node = tt
  show_text-LeavesServer fault node = tt

  dispatch-LeavesServer :
      (client : t.Client) (raw : Bytes) (k : ℕ) (node : Node)
      → LeavesServer
          (if k == client_heartbeat then noted (t.get_ip client) node.server else node.server)
          (dispatch client raw k node)
  unfolding dispatch print
  dispatch-LeavesServer client raw k node = elim (Bool-cases (k == client_heartbeat)) [
    | inl y ↦ rw y refl
    | inr n ↦ elim (Bool-cases (k == client_poke)) [
      | inl y1 ↦ rw (n, y1) (server-connect_to_server (t.get_ip client) node)
      | inr n1 ↦ elim (Bool-cases (k == simple_string)) [
        | inl y2 ↦ rw (n, n1, y2) (show_text-LeavesServer (decode_simple_string raw) node)
        | inr n2 ↦ elim (Bool-cases (k == broadcast_tx)) [
          | inl y3 ↦ rw (n, n1, n2, y3) refl
          | inr n3 ↦ rw (n, n1, n2, n3) refl
        ]
      ]
    ]
  ]

  -- A handled message notes a heartbeat if its header names one, and else leaves the server's state alone.
  pub server-receive_message :
      (client : t.Client) (raw : Bytes) (node node' : Node)
      → receive_message client raw node ≡ ok node'
      → (k : ℕ) × (read_header raw ≡ ok k)
        × (node'.server
            ≡ (if k == client_heartbeat then noted (t.get_ip client) node.server else node.server))
  unfolding receive_message
  server-receive_message client raw node node' h =
      let (k, e, _) = read_header_total raw in
      let d : receive_message client raw node ≡ dispatch client raw k node = rw e refl in
      (k, e, subst (LeavesServer _) (sym d ∙ h) (dispatch-LeavesServer client raw k node))

  Keeps-server :
      (ip : Bytes) (node node' : Node) (k : ℕ)
      → node'.server ≡ (if k == client_heartbeat then noted ip node.server else node.server)
      → Keeps ip node node'
  Keeps-server ip node node' k e = elim (Bool-cases (k == client_heartbeat)) [
    | inl y ↦
        let e' : node'.server ≡ noted ip node.server = e ∙ rw y refl in
        let beats : (j : Bytes) → heard j node' ≡ (if same_bytes ip j then true else heard j node) =
          λ j.
            ap (λ (s : NServer). answered (lookup j s.client_heartbeats)) e'
            ∙ answered-insert ip j node.server.client_heartbeats in
        record {
          same_connections = ap (λ (s : NServer). s.connected_clients) e';
          same_tserver = ap (λ (s : NServer). s.tserver) e';
          still_heard = λ j h. beats j ∙ ground (arith, h);
          no_other = λ j n. beats j ∙ rw n refl;
        }
    | inr n ↦
        let e' : node'.server ≡ node.server = e ∙ rw n refl in
        let beats : (j : Bytes) → heard j node' ≡ heard j node =
          λ j. ap (λ (s : NServer). answered (lookup j s.client_heartbeats)) e' in
        record {
          same_connections = ap (λ (s : NServer). s.connected_clients) e';
          same_tserver = ap (λ (s : NServer). s.tserver) e';
          still_heard = λ j h. beats j ∙ h;
          no_other = λ j m. beats j;
        }
  ]

  -- Whatever bytes a client sends, if the server's handler returns then the connections and the TCP
  -- server are as they were, no address that was heard is forgotten, and no address but the client's
  -- own is heard anew.
  pub receive_message-Keeps :
      (client : t.Client) (raw : Bytes) (node node' : Node)
      → receive_message client raw node ≡ ok node'
      → Keeps (t.get_ip client) node node'
  receive_message-Keeps client raw node node' h =
      let (k, _, e) = server-receive_message client raw node node' h in
      Keeps-server (t.get_ip client) node node' k e
