-- ===== src/Client/Dedup.antt =====
-- The test for a second connection does its work as long as no request comes while a thread is still
-- connecting to the same address.
use dave_coin.Base.{
  ℕ, ◌+◌, ◌≤◌, ◌<◌, ◌≡◌, refl, List, [], ◌∷◌, ◌++◌, Bool, true, false, arith, if◌then◌else◌,
  Bool-cases, inl, inr,
}
use dave_coin.Bytes.{Bytes}
use dave_coin.Client.{is_active, connect_to_server, initialize_client_connection, finished}
use dave_coin.Client.Connect.{connections, connections-append_other}
use dave_coin.Dict.{same_bytes, same_bytes_iff}
use dave_coin.Node.{Node, NClient, print}
use dave_coin.Tcp.{Tcp}

-- The number of threads that are connecting to an address.
abbrev pub pending : Bytes → List Bytes → ℕ
pending ip [] = 0
pending ip (j ∷ js) = (if same_bytes j ip then 1 else 0) + pending ip js

pub pending-append :
    (ip j : Bytes) (js : List Bytes)
    → pending ip (js ++ j ∷ []) ≡ pending ip js + (if same_bytes j ip then 1 else 0)
pending-append ip j [] = omega arith
pending-append ip j (k ∷ js) = omega (arith, pending-append ip j js)

pub pending-finished :
    (ip j : Bytes) (js : List Bytes)
    → 0 < pending j js
    → pending ip (finished j js) + (if same_bytes j ip then 1 else 0) ≡ pending ip js
unfolding finished
pending-finished ip j [] h = absurd (omega arith)
pending-finished ip j (k ∷ js) h = elim (Bool-cases (same_bytes k j)) [
  | inl y ↦ ground (arith, y, same_bytes_iff k j, same_bytes_iff j ip, same_bytes_iff k ip)
  | inr n ↦ ground (arith, n, pending-finished ip j js)
]

is_active-connections :
    (ip : Bytes) (cs : List NClient) → is_active ip cs ≡ false → connections ip cs ≡ 0
unfolding is_active
is_active-connections ip [] h = refl
is_active-connections ip (c ∷ cs) h = ground (arith, is_active-connections ip cs)

module _ ⦃t : Tcp⦄ where
  -- What the client's threads do to the lists of connections: a request, when no thread is connecting to
  -- the address, and the end of a thread's `connectTo`.
  pub data Connects : Node → Node → Type 0 where
    requested :
        {node : Node} (ip : Bytes)
        → pending ip node.connecting ≡ 0
        → Connects node (connect_to_server ip node)
    settled :
        {node : Node} (success : Bool) (my_ip ip : Bytes)
        → 0 < pending ip node.connecting
        → Connects node (initialize_client_connection success my_ip ip node)

  pub data ConnectsAll (a : Node) : Node → Type 0 where
    untouched : ConnectsAll a a
    and_then : {b d : Node} → ConnectsAll a b → Connects b d → ConnectsAll a d

  -- To each address there is at most one connection, counting the threads that are connecting.
  abbrev pub AtMostOne : Node → Type 0
  AtMostOne node =
      (ip : Bytes) → connections ip node.active_clients + pending ip node.connecting ≤ 1

  requested-AtMostOne :
      (ip : Bytes) (node : Node)
      → pending ip node.connecting ≡ 0
      → AtMostOne node
      → AtMostOne (connect_to_server ip node)
  unfolding connect_to_server
  requested-AtMostOne ip node free h j = elim (Bool-cases (is_active ip node.active_clients)) [
    | inl y ↦ rw y (h j)
    | inr n ↦ rw n (
        ground (
          arith,
          h j,
          free,
          pending-append j ip node.connecting,
          same_bytes_iff ip j,
          is_active-connections ip node.active_clients n,
        ))
  ]

  settled-AtMostOne :
      (success : Bool) (my_ip ip : Bytes) (node : Node)
      → 0 < pending ip node.connecting
      → AtMostOne node
      → AtMostOne (initialize_client_connection success my_ip ip node)
  unfolding initialize_client_connection print
  settled-AtMostOne true my_ip ip node some_thread h j = omega (
    arith,
    h j,
    pending-finished j ip node.connecting some_thread,
    connections-append_other j ip node.active_clients true,
  )
  settled-AtMostOne false my_ip ip node some_thread h j =
      omega (arith, h j, pending-finished j ip node.connecting some_thread)

  -- If no address has two connections, connecting threads included, then it stays so, whatever requests
  -- come and however the threads end, as long as no request comes for an address to which a thread is
  -- still connecting.
  pub ConnectsAll-AtMostOne : (a b : Node) → ConnectsAll a b → AtMostOne a → AtMostOne b
  ConnectsAll-AtMostOne a b untouched h = h
  ConnectsAll-AtMostOne a _ (and_then {b} r (requested ip free)) h =
      requested-AtMostOne ip b free (ConnectsAll-AtMostOne a b r h)
  ConnectsAll-AtMostOne a _ (and_then {b} r (settled success my_ip ip some_thread)) h =
      settled-AtMostOne success my_ip ip b some_thread (ConnectsAll-AtMostOne a b r h)
