-- ===== src/Network/Calm.antt =====
-- Calls that neither close a connection to a server nor lose a request for one.
use dave_coin.Base.{
  ℕ, ◌≤◌, ◌<◌, ◌≡◌, refl, sym, ap, subst, ◌∙◌, ◌⊎◌, [], ◌∷◌, true, arith, ◌==◌, inl, inr,
  Bool-cases, Option-cases,
}
use dave_coin.Bytes.{Bytes, Outcome, ok, throws, fault}
use dave_coin.Client.{is_active, connect_to_server}
use dave_coin.Client.Dedup.{pending, pending-append}
use dave_coin.Dict.{Dict, same_bytes_iff}
use dave_coin.Node.{Node, print}
use dave_coin.Packet.{
  DecodedPacket, client_heartbeat, client_poke, simple_string, broadcast_tx, decode_simple_string,
}
use dave_coin.Packet.Header.{read_header_total}
use dave_coin.Server.{
  accept, receive_message, dispatch, show_text, sweep, sweep_loop, drop_client, client_disconnected,
}
use dave_coin.Server.Sweep.{beat, sweep_loop-skips, sweep_loop-beat}
use dave_coin.Tcp.{Tcp}

module _ ⦃t : Tcp⦄ where
  -- The client's half of the state: its connections are the same, all its threads are there, and none is new
  -- for an address that has a connection.
  pub record KeepsClient (node node' : Node) : Type 0 where
    pub same_active : node'.active_clients ≡ node.active_clients
    pub more_pending : (ip : Bytes) → pending ip node.connecting ≤ pending ip node'.connecting
    pub not_again :
        (ip : Bytes)
        → is_active ip node.active_clients ≡ true
        → pending ip node'.connecting ≤ pending ip node.connecting

  pub same-KeepsClient :
      {node node' : Node}
      → node'.active_clients ≡ node.active_clients
      → node'.connecting ≡ node.connecting
      → KeepsClient node node'
  same-KeepsClient a c = record {
    same_active = a;
    more_pending = λ ip. omega (arith, ap (pending ip) c);
    not_again = λ ip active. omega (arith, ap (pending ip) c);
  }

  pub connect_to_server-KeepsClient :
      (ip : Bytes) (node : Node) → KeepsClient node (connect_to_server ip node)
  unfolding connect_to_server
  connect_to_server-KeepsClient ip node = elim (Bool-cases (is_active ip node.active_clients)) [
    | inl y ↦ rw y (same-KeepsClient refl refl)
    | inr n ↦ rw n (record {
      same_active = refl;
      more_pending = λ j. omega (arith, pending-append j ip node.connecting);
      not_again = λ j active.
          ground (arith, n, active, same_bytes_iff ip j, pending-append j ip node.connecting);
    })
  ]

  -- After a request there is a connection, or a thread that connects.
  pub connect_to_server-asks :
      (ip : Bytes) (node : Node)
      → (is_active ip (connect_to_server ip node).active_clients ≡ true)
        ⊎ (0 < pending ip (connect_to_server ip node).connecting)
  unfolding connect_to_server
  connect_to_server-asks ip node = elim (Bool-cases (is_active ip node.active_clients)) [
    | inl y ↦ inl (rw y y)
    | inr n ↦
        inr (rw n (ground (arith, pending-append ip ip node.connecting, same_bytes_iff ip ip)))
  ]

  -- If the call returns, its result satisfies `P`.
  abbrev OnReturn : (Node → Type 0) → Outcome Node → Type 0
  OnReturn P (ok node) = P node
  OnReturn P (throws e) = Unit
  OnReturn P fault = Unit

  -- A predicate of nodes that hold the same of the client's lists as `node`.
  abbrev pub OfLists : (Node → Type 0) → Node → Type 0
  OfLists P node =
      (node' : Node)
      → node'.active_clients ≡ node.active_clients
      → node'.connecting ≡ node.connecting
      → P node'

  module _ (P : Node → Type 0) (client : t.Client) (node : Node) (same : OfLists P node) where
    accept-OnReturn : (tserver : t.Server) → OnReturn P (accept client tserver node)
    unfolding accept print
    accept-OnReturn tserver = elim (Bool-cases (t.is_connected client)) [
      | inl y ↦ rw y (same _ refl refl)
      | inr n ↦ rw n tt
    ]

    pub accept-elim :
        (tserver : t.Server) (node' : Node) → accept client tserver node ≡ ok node' → P node'
    accept-elim tserver node' e = subst (OnReturn P) e (accept-OnReturn tserver)

    show_text-OnReturn : (r : Outcome (DecodedPacket Bytes)) → OnReturn P (show_text r node)
    unfolding show_text print
    show_text-OnReturn (ok p) = same _ refl refl
    show_text-OnReturn (throws e) = tt
    show_text-OnReturn fault = tt

    dispatch-OnReturn :
        (raw : Bytes) (k : ℕ)
        → P (connect_to_server (t.get_ip client) node)
        → OnReturn P (dispatch client raw k node)
    unfolding dispatch print
    dispatch-OnReturn raw k poked = elim (Bool-cases (k == client_heartbeat)) [
      | inl y ↦ rw y (same _ refl refl)
      | inr n ↦ elim (Bool-cases (k == client_poke)) [
        | inl y1 ↦ rw (n, y1) poked
        | inr n1 ↦ elim (Bool-cases (k == simple_string)) [
          | inl y2 ↦ rw (n, n1, y2) (show_text-OnReturn (decode_simple_string raw))
          | inr n2 ↦ elim (Bool-cases (k == broadcast_tx)) [
            | inl y3 ↦ rw (n, n1, n2, y3) (same _ refl refl)
            | inr n3 ↦ rw (n, n1, n2, n3) (same _ refl refl)
          ]
        ]
      ]
    ]

    -- What holds of nodes with the same lists, and after a request for the client's address, holds when
    -- the handler returns.
    pub receive_message-elim :
        (raw : Bytes) (node' : Node)
        → P (connect_to_server (t.get_ip client) node)
        → receive_message client raw node ≡ ok node'
        → P node'
    unfolding receive_message
    receive_message-elim raw node' poked h =
        let (k, e, _) = read_header_total raw in
        let d : receive_message client raw node ≡ dispatch client raw k node = rw e refl in
        subst (OnReturn P) (sym d ∙ h) (dispatch-OnReturn raw k poked)

  pub accept-KeepsClient :
      (client : t.Client) (tserver : t.Server) (a b : Node)
      → accept client tserver a ≡ ok b
      → KeepsClient a b
  accept-KeepsClient client tserver a b e =
      accept-elim (KeepsClient a) client a (λ _. same-KeepsClient) tserver b e

  pub receive_message-KeepsClient :
      (client : t.Client) (raw : Bytes) (node node' : Node)
      → receive_message client raw node ≡ ok node'
      → KeepsClient node node'
  receive_message-KeepsClient client raw node node' h =
      receive_message-elim (KeepsClient node) client node (λ _. same-KeepsClient) raw node'
        (connect_to_server-KeepsClient (t.get_ip client) node) h

  KeepsClient-trans : {a b d : Node} → KeepsClient a b → KeepsClient b d → KeepsClient a d
  KeepsClient-trans h k = record {
    same_active = k.same_active ∙ h.same_active;
    more_pending = λ ip. omega (arith, h.more_pending ip, k.more_pending ip);
    not_again = λ ip active.
        omega
          (arith, h.not_again ip active, k.not_again ip (ap (is_active ip) h.same_active ∙ active));
  }

  drop_client-KeepsClient :
      (ip : Bytes) (client : t.Client) (node : Node) → KeepsClient node (drop_client ip client node)
  unfolding drop_client client_disconnected print
  drop_client-KeepsClient ip client node = same-KeepsClient refl refl

  sweep_loop-KeepsClient : (l : Dict t.Client) (node : Node) → KeepsClient node (sweep_loop l node)
  unfolding sweep_loop
  sweep_loop-KeepsClient [] node = same-KeepsClient refl refl
  sweep_loop-KeepsClient ((ip, client) ∷ l) node = elim (Option-cases (beat ip node)) [
    | inl e ↦ subst (KeepsClient node) (sym (sweep_loop-skips ip client l node e)) (
        KeepsClient-trans (drop_client-KeepsClient ip client node)
          (sweep_loop-KeepsClient l (drop_client ip client node)))
    | inr (b, e) ↦
        subst (KeepsClient node) (sym (sweep_loop-beat ip client l node b e))
          (sweep_loop-KeepsClient l node)
  ]

  pub sweep-KeepsClient : (node : Node) → KeepsClient node (sweep node)
  unfolding sweep
  sweep-KeepsClient node =
      let kept = sweep_loop-KeepsClient node.server.connected_clients node in
      record {
        same_active = kept.same_active;
        more_pending = kept.more_pending;
        not_again = kept.not_again;
      }
