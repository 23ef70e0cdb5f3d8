-- ===== src/Server/Round/History.antt =====
-- Histories of the server whose rounds are taken apart, and the rounds that nothing disturbs.
use dave_coin.Base.{◌≡◌, refl, sym, subst, [], ◌∷◌, Option, none}
use dave_coin.Bytes.{Bytes}
use dave_coin.Dict.{Dict}
use dave_coin.Dict.Cursor.{first_key}
use dave_coin.Dict.Order.{IsSorted}
use dave_coin.Node.{Node}
use dave_coin.Server.{sweep}
use dave_coin.Server.Ledger.{Event-IsSorted}
use dave_coin.Server.Round.{visit, clear_heartbeats, Round, begins, visits}
use dave_coin.Server.Round.Alone.{IsAlone, IsHalfway, visit-IsHalfway, Round-sweep}
use dave_coin.Server.Round.Fair.{Round-IsSorted}
use dave_coin.Server.Steps.{Event, Reach, at_first, and_busy, and_sweep}
use dave_coin.Tcp.{Tcp}

module _ ⦃t : Tcp⦄ where
  -- What the server's threads do, the heartbeat loop one entry at a time.
  pub data History (a : Node) : Node → Type 0 where
    at_start : History a a
    and_step : {b d : Node} → History a b → Event b d → History a d
    and_round : {b d : Node} → History a b → Round b none d → History a (clear_heartbeats d)

  clear_heartbeats-IsSorted :
      (b : Node)
      → IsSorted b.server.connected_clients
      → IsSorted (clear_heartbeats b).server.connected_clients
  unfolding clear_heartbeats
  clear_heartbeats-IsSorted b h = h

  -- In any history of a server that starts with no client, the heartbeat loop's steps between those of the
  -- other threads, the connected clients stand in the order of their addresses, so no address stands there
  -- twice.
  pub History-IsSorted :
      {a b : Node}
      → a.server.connected_clients ≡ []
      → History a b
      → IsSorted b.server.connected_clients
  History-IsSorted none_yet at_start = subst IsSorted (sym none_yet) tt
  History-IsSorted none_yet (and_step h e) = Event-IsSorted e (History-IsSorted none_yet h)
  History-IsSorted none_yet (and_round {b} {d} h r) =
      clear_heartbeats-IsSorted d (Round-IsSorted (History-IsSorted none_yet h) r)

  -- A round that got this far undisturbed.
  abbrev Undisturbed : Node → Option Bytes → Node → Type 0
  Undisturbed a i b = (r : Round a i b) × IsAlone r

  visit-all :
      (a b : Node) (done left : Dict t.Client)
      → IsSorted a.server.connected_clients
      → IsHalfway a (first_key left) b done left
      → Undisturbed a (first_key left) b
      → (d : Node) × Undisturbed a none d
  visit-all a b done [] sorted s u = (b, u)
  visit-all a b done ((j, client) ∷ left) sorted s (r, alone) =
      let (done', s') = visit-IsHalfway a b j client done left (Round-IsSorted sorted r) s in
      visit-all a (visit j b) done' left sorted
        (subst (λ i. IsHalfway a i (visit j b) done' left) s'.at_left s')
        (subst (λ i. Undisturbed a i (visit j b)) s'.at_left (visits j r, alone))

  -- A round over clients in the order of their addresses that nothing disturbs comes to its end, as `sweep`
  -- does.
  pub Round-ends :
      (a : Node)
      → IsSorted a.server.connected_clients
      → (d : Node) × (r : Round a none d) × IsAlone r × (clear_heartbeats d ≡ sweep a)
  Round-ends a sorted =
      let (d, u) =
        visit-all a a [] a.server.connected_clients sorted
          (record { at_left = refl; clients = refl; rest = refl }) (begins, tt) in
      let (r, alone) = u in (d, r, alone, Round-sweep r alone sorted)

  -- So each history of whole rounds is one.
  pub Reach-History : {a b : Node} → a.server.connected_clients ≡ [] → Reach a b → History a b
  Reach-History none_yet at_first = at_start
  Reach-History none_yet (and_busy r e) = and_step (Reach-History none_yet r) e
  Reach-History none_yet (and_sweep {b} r) =
      let h = Reach-History none_yet r in
      let (d, round, _, same) = Round-ends b (History-IsSorted none_yet h) in
      subst (History _) same (and_round h round)
