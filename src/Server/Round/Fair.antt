-- ===== src/Server/Round/Fair.antt =====
-- A round treats the clients as if it ran alone.
use dave_coin.Base.{
  ◌≡◌, refl, sym, ap, subst, ◌∙◌, ◌⊎◌, true, false, Option, none, some, arith, if◌then◌else◌,
  Bool-cases, Option-cases, inl, inr,
}
use dave_coin.Bytes.{Bytes}
use dave_coin.Dict.{same_bytes, same_bytes_iff, lookup}
use dave_coin.Dict.Cursor.{IsAhead, next_key, first_key-IsAhead, next_key-IsAhead}
use dave_coin.Dict.Order.{IsSorted, erase-IsSorted, before_total}
use dave_coin.Node.{Node}
use dave_coin.Server.{drop_client}
use dave_coin.Server.Ledger.{Event-IsSorted}
use dave_coin.Server.Messages.{receive_message-Keeps}
use dave_coin.Server.Round.{visit, Round, begins, meanwhile, visits, IsQuiet, clear_heartbeats}
use dave_coin.Server.Steps.{
  Event, accepted, received, IsConnected, connection-accept, heard-accept, Event-IsConnected,
  Event-heard,
}
use dave_coin.Server.Sweep.{
  connection, beat, heard, answered, connection-drop_client, beat-drop_client,
}
use dave_coin.Server.Sweep.Kills.{clients-drop_client}
use dave_coin.Tcp.{Tcp}

module _ ⦃t : Tcp⦄ where
  -- A visit erases the entry if its address was not heard.
  pub visit_cases :
      (j : Bytes) (node : Node)
      → ((visit j node ≡ node) × ((connection j node ≡ none) ⊎ (heard j node ≡ true)))
        ⊎ ((client : t.Client) × (beat j node ≡ none) × (visit j node ≡ drop_client j client node))
  unfolding visit
  visit_cases j node = elim (Option-cases (connection j node)) [
    | inl e ↦ inl (rw (e, visit) refl, inl e)
    | inr (client, e) ↦ elim (Option-cases (beat j node)) [
      | inl h ↦ inr (client, h, rw (e, h, visit) refl)
      | inr (b, h) ↦ inl (rw (e, h, visit) refl, inr (ap answered h))
    ]
  ]

  heard-visit : (ip j : Bytes) (node : Node) → heard ip (visit j node) ≡ heard ip node
  heard-visit ip j node = elim (visit_cases j node) [
    | inl (same, _) ↦ ap (heard ip) same
    | inr (client, _, e) ↦ ap (heard ip) e ∙ ap answered (beat-drop_client ip j client node)
  ]

  connection-visit :
      (ip j : Bytes) (node : Node)
      → connection ip (visit j node) ≡ (
          if same_bytes j ip
          then if heard ip node then connection ip node else none
          else connection ip node)
  connection-visit ip j node = elim (visit_cases j node) [
    | inl (same, inl away) ↦ ap (connection ip) same ∙ ground (arith, away, same_bytes_iff j ip)
    | inl (same, inr loud) ↦ ap (connection ip) same ∙ ground (arith, loud, same_bytes_iff j ip)
    | inr (client, h, e) ↦
        let quiet : heard j node ≡ false = ap answered h in
        ap (connection ip) e
        ∙ connection-drop_client ip j client node
        ∙ ground (arith, quiet, same_bytes_iff j ip)
  ]

  clients-visit-IsSorted :
      (j : Bytes) (node : Node)
      → IsSorted node.server.connected_clients
      → IsSorted (visit j node).server.connected_clients
  clients-visit-IsSorted j node h = elim (visit_cases j node) [
    | inl (same, _) ↦ subst (λ (n : Node). IsSorted n.server.connected_clients) (sym same) h
    | inr (client, _, e) ↦
        subst IsSorted
          (sym
            (ap (λ (n : Node). n.server.connected_clients) e ∙ clients-drop_client j client node))
          (erase-IsSorted j node.server.connected_clients h)
  ]

  pub Round-IsSorted :
      {a b : Node} {i : Option Bytes}
      → IsSorted a.server.connected_clients
      → Round a i b
      → IsSorted b.server.connected_clients
  Round-IsSorted h begins = h
  Round-IsSorted h (meanwhile r e) = Event-IsSorted e (Round-IsSorted h r)
  Round-IsSorted h (visits {b} j r) = clients-visit-IsSorted j b (Round-IsSorted h r)

  Round-heard :
      (ip : Bytes) {a b : Node} {i : Option Bytes}
      → Round a i b
      → heard ip a ≡ true
      → heard ip b ≡ true
  Round-heard ip begins h = h
  Round-heard ip (meanwhile r e) h = Event-heard ip e (Round-heard ip r h)
  Round-heard ip (visits {b} j r) h = heard-visit ip j b ∙ Round-heard ip r h

  visit-IsConnected :
      (ip j : Bytes) (node : Node)
      → heard ip node ≡ true
      → IsConnected ip node
      → IsConnected ip (visit j node)
  visit-IsConnected ip j node h (client, e) =
      (client, connection-visit ip j node ∙ ground (arith, h, e))

  -- An address that is connected, and was heard, when a round begins, is connected at each point of the
  -- round and at its end, whatever the server accepts and receives meanwhile.
  pub Round-IsConnected :
      (ip : Bytes) {a b : Node} {i : Option Bytes} (r : Round a i b)
      → heard ip a ≡ true
      → IsConnected ip a
      → IsConnected ip (clear_heartbeats b)
  unfolding clear_heartbeats
  Round-IsConnected ip begins h there = there
  Round-IsConnected ip (meanwhile r e) h there =
      Event-IsConnected ip e (Round-IsConnected ip r h there)
  Round-IsConnected ip (visits {b} j r) h there =
      visit-IsConnected ip j b (Round-heard ip r h) (Round-IsConnected ip r h there)

  -- What does not come from `ip` leaves its heartbeat and its connection alone.
  quiet-heard :
      (ip : Bytes) {a b : Node} {i : Option Bytes} (r : Round a i b)
      → IsQuiet ip r
      → heard ip b ≡ heard ip a
  quiet-heard ip begins q = refl
  quiet-heard ip (meanwhile {i} {b} {d} r (accepted client tserver e)) (n, q) =
      heard-accept ip client tserver b d e ∙ rw n (quiet-heard ip r q)
  quiet-heard ip (meanwhile {i} {b} {d} r (received client raw e)) (n, q) =
      (receive_message-Keeps client raw b d e).no_other ip n ∙ quiet-heard ip r q
  quiet-heard ip (visits {b} j r) q = heard-visit ip j b ∙ quiet-heard ip r q

  Event-connection :
      (ip : Bytes) {a b d : Node} {i : Option Bytes} (r : Round a i b) (e : Event b d)
      → IsQuiet ip (meanwhile r e)
      → connection ip d ≡ connection ip b
  Event-connection ip {b = b} {d = d} r (accepted client tserver e) (n, _) =
      connection-accept ip client tserver b d e ∙ rw n refl
  Event-connection ip {b = b} {d = d} r (received client raw e) q =
      ap (lookup ip) (receive_message-Keeps client raw b d e).same_connections

  IsQuiet-before :
      (ip : Bytes) {a b d : Node} {i : Option Bytes} (r : Round a i b) (e : Event b d)
      → IsQuiet ip (meanwhile r e)
      → IsQuiet ip r
  IsQuiet-before ip r (accepted client tserver e) (_, q) = q
  IsQuiet-before ip r (received client raw e) (_, q) = q

  heard-connection :
      (ip : Bytes) {a b : Node} {i : Option Bytes} (r : Round a i b)
      → IsQuiet ip r
      → heard ip a ≡ true
      → connection ip b ≡ connection ip a
  heard-connection ip begins q h = refl
  heard-connection ip (meanwhile r e) q h =
      Event-connection ip r e q ∙ heard-connection ip r (IsQuiet-before ip r e q) h
  heard-connection ip (visits {b} j r) q h =
      connection-visit ip j b ∙ ground (arith, Round-heard ip r h) ∙ heard-connection ip r q h

  -- Until the iterator has passed `ip` it may be connected, and then no longer.
  abbrev IsDue : Bytes → Option Bytes → Node → Type 0
  IsDue ip i node = (connection ip node ≡ none) ⊎ IsAhead ip i

  IsDue-visit :
      (ip j : Bytes) (node : Node)
      → IsSorted node.server.connected_clients
      → heard ip node ≡ false
      → IsDue ip (some j) node
      → IsDue ip (next_key j node.server.connected_clients) (visit j node)
  IsDue-visit ip j node sorted h (inl gone) =
      inl (connection-visit ip j node ∙ ground (arith, gone, h))
  IsDue-visit ip j node sorted h (inr ahead) = elim (Bool-cases (same_bytes ip j)) [
    | inl y ↦ inl (
        connection-visit ip j node ∙ ground (arith, h, y, same_bytes_iff ip j, same_bytes_iff j ip))
    | inr n ↦ elim (Option-cases (connection ip node)) [
      | inl gone ↦ inl (connection-visit ip j node ∙ ground (arith, gone, h))
      | inr (client, there) ↦ inr (
          next_key-IsAhead ip j client node.server.connected_clients sorted
            (before_total ip j n ahead) there)
    ]
  ]

  Round-IsDue :
      (ip : Bytes) {a b : Node} {i : Option Bytes} (r : Round a i b)
      → IsQuiet ip r
      → IsSorted a.server.connected_clients
      → heard ip a ≡ false
      → IsDue ip i b
  Round-IsDue ip {a} begins q sorted h = elim (Option-cases (connection ip a)) [
    | inl gone ↦ inl gone
    | inr (client, there) ↦
        inr (first_key-IsAhead ip client a.server.connected_clients sorted there)
  ]
  Round-IsDue ip (meanwhile r e) q sorted h =
      elim (Round-IsDue ip r (IsQuiet-before ip r e q) sorted h) [
        | inl gone ↦ inl (Event-connection ip r e q ∙ gone)
        | inr ahead ↦ inr ahead
      ]
  Round-IsDue ip (visits {b} j r) q sorted h =
      IsDue-visit ip j b (Round-IsSorted sorted r) (quiet-heard ip r q ∙ h)
        (Round-IsDue ip r q sorted h)

  -- When a round has come to its end, whatever the server accepted from other addresses and received from
  -- them meanwhile, an address has the connection that it had when the round began if it was heard before
  -- that, and else none.
  pub Round_lem :
      (ip : Bytes) {a b : Node} (r : Round a none b)
      → IsQuiet ip r
      → IsSorted a.server.connected_clients
      → connection ip (clear_heartbeats b) ≡ (if heard ip a then connection ip a else none)
  unfolding clear_heartbeats
  Round_lem ip {a} {b} r q sorted = elim (Bool-cases (heard ip a)) [
    | inl y ↦ heard-connection ip r q y ∙ rw y refl
    | inr n ↦ elim (Round-IsDue ip r q sorted n) [
      | inl gone ↦ gone ∙ rw n refl
      | inr never ↦ absurd never
    ]
  ]
