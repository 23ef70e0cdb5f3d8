-- ===== src/Server/Ledger.antt =====
-- What becomes of the clients that the server accepts, over any history: they are connected, or were
-- killed by a round, or were displaced by a later client at the same address.
use dave_coin.Base.{
  ◌≡◌, refl, sym, ap, subst, List, [], ◌∷◌, ◌++◌, Bool, Option, none, some, append-nil,
  append_assoc, Bool-cases, inl, inr, Perm, perm_middle,
}
use mathlib.Core.List.Perm
use dave_coin.Bytes.{Bytes}
use dave_coin.Dict.{Dict, same_bytes, before, lookup, insert}
use dave_coin.Dict.Order.{
  IsSorted, IsBehind, insert-IsSorted, before-same_bytes, same_bytes_flip, IsBehind-trans,
}
use dave_coin.Node.{Node, NServer}
use dave_coin.Server.Messages.{receive_message-Keeps}
use dave_coin.Server.Steps.{
  Event, accepted, received, Reach, at_first, and_busy, and_sweep, server-accept,
}
use dave_coin.Server.Sweep.{answered, connection}
use dave_coin.Server.Sweep.Kills.{kept, silent, sweep_lem}
use dave_coin.Tcp.{Tcp}

Perm-front {ℓ} : {A : Type ℓ} (xs ys zs : List A) → Perm (xs ++ (ys ++ zs)) (ys ++ (xs ++ zs))
Perm-front [] ys zs = Perm.rfl
Perm-front (x ∷ xs) ys zs =
    Perm.trans (Perm.cons x (Perm-front xs ys zs)) (Perm.symm (perm_middle ys (xs ++ zs)))

pub Perm-snoc {ℓ} : {A : Type ℓ} (x : A) (xs : List A) → Perm (x ∷ xs) (xs ++ x ∷ [])
Perm-snoc x [] = Perm.rfl
Perm-snoc x (y ∷ xs) = Perm.trans (Perm.swap y x xs) (Perm.cons y (Perm-snoc x xs))

-- The values of a map.
abbrev pub values {ℓ} : {V : Type ℓ} → Dict V → List V
values [] = []
values ((k, v) ∷ m) = v ∷ values m

abbrev pub at_most_one {ℓ} : {V : Type ℓ} → Option V → List V
at_most_one none = []
at_most_one (some v) = v ∷ []

lookup-IsBehind {ℓ} : {V : Type ℓ} (k : Bytes) (m : Dict V) → IsBehind k m → lookup k m ≡ none
unfolding lookup
lookup-IsBehind k [] h = refl
lookup-IsBehind k ((j, v) ∷ m) (h, hs) =
    rw (same_bytes_flip k j (before-same_bytes k j h)) (lookup-IsBehind k m hs)

-- A new entry displaces at most the one that stood at its key.
pub values-insert {ℓ} :
    {V : Type ℓ} (k : Bytes) (v : V) (m : Dict V)
    → IsSorted m
    → Perm (v ∷ values m) (values (insert k v m) ++ at_most_one (lookup k m))
unfolding insert lookup
values-insert k v [] h = Perm.rfl
values-insert k v ((j, w) ∷ m) (h, hs) = elim (Bool-cases (same_bytes j k)) [
  | inl y ↦ rw y (Perm.cons v (Perm-snoc w (values m)))
  | inr n ↦ elim (Bool-cases (before k j)) [
    | inl y' ↦
        rw (n, y', lookup-IsBehind k m (IsBehind-trans k j m y' h))
          (rw (append-nil (values m)) Perm.rfl)
    | inr n' ↦
        rw (n, n') (Perm.trans (Perm.swap w v (values m)) (Perm.cons w (values-insert k v m hs)))
  ]
]

module _ ⦃t : Tcp⦄ where
  kept-IsBehind :
      (ip : Bytes) (beats : Dict Bool) (l : Dict t.Client)
      → IsBehind ip l
      → IsBehind ip (kept beats l)
  kept-IsBehind ip beats [] h = tt
  kept-IsBehind ip beats ((j, client) ∷ l) (h, hs) = elim (Bool-cases (answered (lookup j beats))) [
    | inl y ↦ rw y (h, kept-IsBehind ip beats l hs)
    | inr n ↦ rw n (kept-IsBehind ip beats l hs)
  ]

  kept-IsSorted : (beats : Dict Bool) (l : Dict t.Client) → IsSorted l → IsSorted (kept beats l)
  kept-IsSorted beats [] h = tt
  kept-IsSorted beats ((j, client) ∷ l) (h, hs) = elim (Bool-cases (answered (lookup j beats))) [
    | inl y ↦ rw y (kept-IsBehind j beats l h, kept-IsSorted beats l hs)
    | inr n ↦ rw n (kept-IsSorted beats l hs)
  ]

  values-kept :
      (beats : Dict Bool) (l : Dict t.Client)
      → Perm (values l) (values (kept beats l) ++ values (silent beats l))
  values-kept beats [] = Perm.nil
  values-kept beats ((j, client) ∷ l) = elim (Bool-cases (answered (lookup j beats))) [
    | inl y ↦ rw y (Perm.cons client (values-kept beats l))
    | inr n ↦ rw n (
        Perm.trans (Perm.cons client (values-kept beats l))
          (Perm.symm (perm_middle (values (kept beats l)) (values (silent beats l)))))
  ]

  pub Event-IsSorted :
      {a b : Node}
      → Event a b
      → IsSorted a.server.connected_clients
      → IsSorted b.server.connected_clients
  Event-IsSorted {a} {b} (accepted client tserver e) h =
      subst IsSorted
        (sym (ap (λ (s : NServer). s.connected_clients) (server-accept client tserver a b e)))
        (insert-IsSorted (t.get_ip client) client a.server.connected_clients h)
  Event-IsSorted {a} {b} (received client raw e) h =
      subst IsSorted (sym (receive_message-Keeps client raw a b e).same_connections) h

  -- In any history of a server that starts with no client, the connected clients stand in the order of
  -- their addresses, so no address stands there twice.
  pub Reach-IsSorted :
      {a b : Node}
      → a.server.connected_clients ≡ []
      → Reach a b
      → IsSorted b.server.connected_clients
  Reach-IsSorted none_yet at_first = subst IsSorted (sym none_yet) tt
  Reach-IsSorted none_yet (and_busy r e) = Event-IsSorted e (Reach-IsSorted none_yet r)
  Reach-IsSorted none_yet (and_sweep {b} r) =
      let sorted = Reach-IsSorted none_yet r in
      let (left, _, _, _) = sweep_lem b sorted in
      subst IsSorted (sym left)
        (kept-IsSorted b.server.client_heartbeats b.server.connected_clients sorted)

  -- The clients accepted in a history, the last one first.
  abbrev pub joined : {a b : Node} → Reach a b → List t.Client
  joined at_first = []
  joined (and_busy r (accepted client tserver e)) = client ∷ joined r
  joined (and_busy r (received client raw e)) = joined r
  joined (and_sweep r) = joined r

  -- Those that were in the map, at the address of a client that was then accepted.
  abbrev pub displaced : {a b : Node} → Reach a b → List t.Client
  displaced at_first = []
  displaced (and_busy {b} r (accepted client tserver e)) =
      at_most_one (connection (t.get_ip client) b) ++ displaced r
  displaced (and_busy r (received client raw e)) = displaced r
  displaced (and_sweep r) = displaced r

  -- Those that a round found silent, and killed.
  abbrev pub killed : {a b : Node} → Reach a b → List t.Client
  killed at_first = []
  killed (and_busy r e) = killed r
  killed (and_sweep {b} r) =
      values (silent b.server.client_heartbeats b.server.connected_clients) ++ killed r

  -- A client joins.
  pub Perm-joined :
      {js bs : List t.Client} (client : t.Client) (ds os ks gs : List t.Client)
      → Perm (client ∷ bs) (ds ++ os)
      → Perm js (bs ++ (ks ++ gs))
      → Perm (client ∷ js) (ds ++ (ks ++ (os ++ gs)))
  Perm-joined {js} {bs} client ds os ks gs p q = Perm.trans (Perm.cons client q) (
      Perm.trans (Perm.append_right (ks ++ gs) p)
        (rw (append_assoc ds os (ks ++ gs)) (Perm.append_left ds (Perm-front os ks gs))))

  -- A round splits the connected clients.
  pub Perm-killed :
      {js bs : List t.Client} (ds ss ks gs : List t.Client)
      → Perm bs (ds ++ ss)
      → Perm js (bs ++ (ks ++ gs))
      → Perm js (ds ++ ((ss ++ ks) ++ gs))
  Perm-killed {js} {bs} ds ss ks gs p q =
      let split : Perm (bs ++ (ks ++ gs)) ((ds ++ ss) ++ (ks ++ gs)) =
        Perm.append_right (ks ++ gs) p in
      Perm.trans q (rw (append_assoc ss ks gs) (rw (append_assoc ds ss (ks ++ gs)) at split))

  -- In any history of a server that starts with no client, the clients that it accepted are, each as
  -- often as it was accepted: those connected at the end, those that a round killed, and those that a later
  -- client from the same address displaced, which no round kills.
  pub Reach-ledger :
      {a b : Node} (none_yet : a.server.connected_clients ≡ []) (r : Reach a b)
      → Perm (joined r) (values b.server.connected_clients ++ (killed r ++ displaced r))
  Reach-ledger none_yet at_first = rw none_yet Perm.nil
  Reach-ledger none_yet (and_busy {b} {d} r (accepted client tserver e)) =
      let there = ap (λ (s : NServer). s.connected_clients) (server-accept client tserver b d e) in
      rw there (
        Perm-joined client _ (at_most_one (connection (t.get_ip client) b)) (killed r) (displaced r)
          (values-insert (t.get_ip client) client b.server.connected_clients
            (Reach-IsSorted none_yet r))
          (Reach-ledger none_yet r))
  Reach-ledger none_yet (and_busy {b} {d} r (received client raw e)) =
      rw (receive_message-Keeps client raw b d e).same_connections (Reach-ledger none_yet r)
  Reach-ledger none_yet (and_sweep {b} r) =
      let (left, _, _, _) = sweep_lem b (Reach-IsSorted none_yet r) in
      rw left (
        Perm-killed _ _ (killed r) (displaced r)
          (values-kept b.server.client_heartbeats b.server.connected_clients)
          (Reach-ledger none_yet r))
