-- ===== src/Server/Steps.antt =====
-- The threads of the server as a step relation: clients are accepted, messages come in, and the
-- heartbeat loop makes its rounds, in any order.
use dave_coin.Base.{
  sym, [], subst, none, ◌≡◌, ap, ◌∙◌, true, some, arith, if◌then◌else◌, Bool-cases, inl, inr,
}
use dave_coin.Bytes.{throws, Error, Bytes, ok}
use dave_coin.Dict.{same_bytes_iff, same_bytes, lookup, insert, lookup-insert}
use dave_coin.Node.{Node, NServer, print}
use dave_coin.Packet.{serialize_heartbeat}
use dave_coin.Server.{sweep, accept, receive_message}
use dave_coin.Server.Sweep.{connection-sweep, connection, heard, answered}
use dave_coin.Server.Alive.{heard-heartbeat}
use dave_coin.Server.Messages.{answered-insert, receive_message-Keeps}
use dave_coin.Tcp.{Tcp}

not_accepted_node : {A : Type 0} {a : A} {x : Error} → ¬ (throws x ≡ ok a)
not_accepted_node e = cc

not_connected : {A : Type 0} {x : A} → ¬ (none ≡ some x)
not_connected e = cc

module _ ⦃t : Tcp⦄ where
  -- What happens between two rounds of the heartbeat loop.
  pub data Event : Node → Node → Type 0 where
    accepted :
        {a b : Node} (client : t.Client) (tserver : t.Server)
        → accept client tserver a ≡ ok b
        → Event a b
    received :
        {a b : Node} (client : t.Client) (raw : Bytes)
        → receive_message client raw a ≡ ok b
        → Event a b

  pub data Busy (a : Node) : Node → Type 0 where
    idle : Busy a a
    and_event : {b d : Node} → Busy a b → Event b d → Busy a d

  -- Rounds of the heartbeat loop, with a heartbeat from `ip` and other events before each of them.
  pub data Rounds (ip : Bytes) (a : Node) : Node → Type 0 where
    start : Rounds ip a a
    and_round :
        {b d e f : Node} (client : t.Client)
        → t.get_ip client ≡ ip
        → Rounds ip a b
        → Busy b d
        → receive_message client (serialize_heartbeat {C = t.Client}).serial d ≡ ok e
        → Busy e f
        → Rounds ip a (sweep f)

  -- Any history of the server.
  pub data Reach (a : Node) : Node → Type 0 where
    at_first : Reach a a
    and_busy : {b d : Node} → Reach a b → Event b d → Reach a d
    and_sweep : {b : Node} → Reach a b → Reach a (sweep b)

  abbrev pub IsConnected : Bytes → Node → Type 0
  IsConnected ip node = (client : t.Client) × (connection ip node ≡ some client)

  -- The server's state when `client` has been accepted.
  abbrev pub admitted : t.Client → t.Server → NServer → NServer
  admitted client tserver s = record {
    tserver = tserver;
    connected_clients = insert (t.get_ip client) client s.connected_clients;
    client_heartbeats = insert (t.get_ip client) true s.client_heartbeats;
  }

  pub server-accept :
      (client : t.Client) (tserver : t.Server) (a b : Node)
      → accept client tserver a ≡ ok b
      → b.server ≡ admitted client tserver a.server
  unfolding accept print
  server-accept client tserver a b e = elim (Bool-cases (t.is_connected client)) [
    | inl y ↦ cc (rw y at e)
    | inr n ↦ absurd (not_accepted_node (rw n at e))
  ]

  pub connection-accept :
      (ip : Bytes) (client : t.Client) (tserver : t.Server) (a b : Node)
      → accept client tserver a ≡ ok b
      → connection ip b ≡ (if same_bytes (t.get_ip client) ip then some client else connection ip a)
  connection-accept ip client tserver a b e =
      ap (λ (s : NServer). lookup ip s.connected_clients) (server-accept client tserver a b e)
      ∙ lookup-insert (t.get_ip client) ip client a.server.connected_clients

  pub heard-accept :
      (ip : Bytes) (client : t.Client) (tserver : t.Server) (a b : Node)
      → accept client tserver a ≡ ok b
      → heard ip b ≡ (if same_bytes (t.get_ip client) ip then true else heard ip a)
  heard-accept ip client tserver a b e =
      ap (λ (s : NServer). answered (lookup ip s.client_heartbeats))
        (server-accept client tserver a b e)
      ∙ answered-insert (t.get_ip client) ip a.server.client_heartbeats

  pub Event-IsConnected :
      (ip : Bytes) {a b : Node} → Event a b → IsConnected ip a → IsConnected ip b
  Event-IsConnected ip {a} {b} (accepted client tserver e) (x, h) =
      let there = connection-accept ip client tserver a b e in
      elim (Bool-cases (same_bytes (t.get_ip client) ip)) [
        | inl y ↦ (client, there ∙ ground (arith, y))
        | inr n ↦ (x, there ∙ ground (arith, n, h))
      ]
  Event-IsConnected ip {a} {b} (received client raw e) (x, h) =
      (x, ap (lookup ip) (receive_message-Keeps client raw a b e).same_connections ∙ h)

  pub Event-heard : (ip : Bytes) {a b : Node} → Event a b → heard ip a ≡ true → heard ip b ≡ true
  Event-heard ip {a} {b} (accepted client tserver e) h =
      heard-accept ip client tserver a b e ∙ ground (arith, h)
  Event-heard ip {a} {b} (received client raw e) h =
      (receive_message-Keeps client raw a b e).still_heard ip h

  Busy-IsConnected : (ip : Bytes) {a b : Node} → Busy a b → IsConnected ip a → IsConnected ip b
  Busy-IsConnected ip idle h = h
  Busy-IsConnected ip (and_event r e) h = Event-IsConnected ip e (Busy-IsConnected ip r h)

  Busy-heard : (ip : Bytes) {a b : Node} → Busy a b → heard ip a ≡ true → heard ip b ≡ true
  Busy-heard ip idle h = h
  Busy-heard ip (and_event r e) h = Event-heard ip e (Busy-heard ip r h)

  pub sweep-IsConnected :
      (ip : Bytes) (a : Node) → heard ip a ≡ true → IsConnected ip a → IsConnected ip (sweep a)
  sweep-IsConnected ip a h (x, e) = (x, connection-sweep a ip ∙ ground (arith, h, e))

  -- An address that is connected, and from which the server handles a heartbeat before each round of the
  -- heartbeat loop, is connected after any number of rounds, whatever else the server accepts and
  -- receives between them.
  pub Rounds-IsConnected :
      (ip : Bytes) (a b : Node) → Rounds ip a b → IsConnected ip a → IsConnected ip b
  Rounds-IsConnected ip a b start h = h
  Rounds-IsConnected ip a _ (and_round {b} {d} {e} {f} client same r before beat after) h =
      let there = Busy-IsConnected ip before (Rounds-IsConnected ip a b r h) in
      let there' = Event-IsConnected ip (received client _ beat) there in
      let counted : heard ip e ≡ true =
        subst (λ j. heard j e ≡ true) same (heard-heartbeat client d e beat) in
      sweep-IsConnected ip f (Busy-heard ip after counted) (Busy-IsConnected ip after there')

  -- The key of every entry of `connected_clients` is the address of its client.
  abbrev pub IsKeyed : Node → Type 0
  IsKeyed node =
      (ip : Bytes) (client : t.Client) → connection ip node ≡ some client → t.get_ip client ≡ ip

  Event-IsKeyed : {a b : Node} → Event a b → IsKeyed a → IsKeyed b
  Event-IsKeyed {a} {b} (accepted client tserver e) keyed ip x h =
      let there = connection-accept ip client tserver a b e in
      elim (Bool-cases (same_bytes (t.get_ip client) ip)) [
        | inl y ↦
            let same : client ≡ x = ground (arith, y, there, h) in
            subst (λ z. t.get_ip z ≡ ip) same ((same_bytes_iff _ _).0 y)
        | inr n ↦ keyed ip x (ground (arith, n, there, h))
      ]
  Event-IsKeyed {a} {b} (received client raw e) keyed ip x h =
      keyed ip x
        (sym (ap (lookup ip) (receive_message-Keeps client raw a b e).same_connections) ∙ h)

  sweep-IsKeyed : (a : Node) → IsKeyed a → IsKeyed (sweep a)
  sweep-IsKeyed a keyed ip x h = elim (Bool-cases (heard ip a)) [
    | inl y ↦ keyed ip x (ground (arith, connection-sweep a ip, y, h))
    | inr n ↦ absurd (ground (arith, connection-sweep a ip, n, h))
  ]

  -- In any history of a server that starts with no client, every connection is stored under the address
  -- of its client.
  pub Reach-IsKeyed : (a b : Node) → a.server.connected_clients ≡ [] → Reach a b → IsKeyed b
  unfolding lookup
  Reach-IsKeyed a b none_yet at_first ip x h =
      absurd (not_connected (sym (ap (lookup ip) none_yet) ∙ h))
  Reach-IsKeyed a b none_yet (and_busy r e) ip x h =
      Event-IsKeyed e (Reach-IsKeyed a _ none_yet r) ip x h
  Reach-IsKeyed a _ none_yet (and_sweep r) ip x h =
      sweep-IsKeyed _ (Reach-IsKeyed a _ none_yet r) ip x h
