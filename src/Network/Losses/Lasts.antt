-- ===== src/Network/Losses/Lasts.antt =====
-- What keeps a lost connection from being made again, for each step of the nodes.
use dave_coin.Base.{
  Bool-cases, some, ◌≡◌, refl, sym, ap, subst, ◌∙◌, List, [], ◌∷◌, ◌++◌, true, false, arith, Any,
  inl, inr,
}
use dave_coin.Bytes.{Bytes}
use dave_coin.Client.{is_active, connect_to_server, disconnected}
use dave_coin.Client.Init.{join_first}
use dave_coin.Client.Loops.{Turn, Link, turn, beat, hello, keep_alive_round, message_round}
use dave_coin.Network.{
  Net, after_establishing, IsDialing, IsArriving, Step, requests, establishes, accepts, sends,
  delivers, rounds,
}
use dave_coin.Network.Calm.{
  same-KeepsClient, connect_to_server-KeepsClient, accept-KeepsClient, receive_message-KeepsClient,
  sweep-KeepsClient,
}
use dave_coin.Network.Puts.{Any-without}
use dave_coin.Network.Moves.{Any-here, same-IsConnected, IsConnected-sweep, accept-cases}
use dave_coin.Network.Losses.{
  link, after_turn, Event, goes_on, fails, drops, closes, turned, joins, Always, at_first,
  and_event, FirstLives,
}
use dave_coin.Node.{NServer, NClient, print}
use dave_coin.Server.{sweep}
use dave_coin.Server.Messages.{receive_message-Keeps, server-connect_to_server}
use dave_coin.Tcp.{Tcp}
use dave_coin.Network.Losses.Stale.{IsStale, put-IsStale, calm-IsStale, initialize-IsStale}

-- The connection that is joined is the first one, and has ended.
join_first-ended :
    (active rest : List NClient)
    → join_first active ≡ some rest
    → (nc : NClient) × (active ≡ nc ∷ rest) × (nc.alive ≡ false)
unfolding join_first
join_first-ended [] rest h = absurd (ground (arith, h))
join_first-ended (nc ∷ others) rest h = elim (Bool-cases nc.alive) [
  | inl y ↦ absurd (ground (arith, y, h))
  | inr n ↦ let left : some others ≡ some rest = rw n at h in (nc, cc, n)
]

-- A connection that is replaced by one to the same server.
is_active-replaced :
    (ip : Bytes) (before behind : List NClient) (nc nc' : NClient)
    → nc'.server_ip ≡ nc.server_ip
    → is_active ip (before ++ nc' ∷ behind) ≡ is_active ip (before ++ nc ∷ behind)
unfolding is_active
is_active-replaced ip [] behind nc nc' e = rw e refl
is_active-replaced ip (c ∷ cs) behind nc nc' e = rw (is_active-replaced ip cs behind nc nc' e) refl

turn-server_ip :
    {C : Type 0} (my_ip : Bytes) (x : Turn) (l : Link C)
    → (turn my_ip x l).nc.server_ip ≡ l.nc.server_ip
unfolding turn keep_alive_round message_round
turn-server_ip my_ip (beat s) l = ground arith
turn-server_ip my_ip (hello s) l = ground arith

module _ ⦃t : Tcp⦄ (a b : Bytes) where
  Step-IsStale : (net net' : Net) → Step net net' → IsStale a b net → IsStale a b net'
  Step-IsStale net net' (requests x c) s =
      let same =
        ap (λ (k : NServer). k.connected_clients) (server-connect_to_server c (net.nodes x)) in
      calm-IsStale a b net x (connect_to_server c (net.nodes x)) net.arriving net.flight
        (connect_to_server-KeepsClient c (net.nodes x))
        (λ _. same-IsConnected a (connect_to_server c (net.nodes x)) (net.nodes x) (sym same))
        s.unarrived s
  Step-IsStale net net' (establishes x c node some_thread e) s =
      subst (λ n. IsStale a b (after_establishing x c net n)) (sym e)
        (initialize-IsStale a b net true x c _ _ some_thread
          (λ h. elim h [
            | inl q ↦
                s.undialed (subst (λ (p : Bytes × Bytes). IsDialing p.0 p.1 net) q some_thread)
            | inr old ↦ s.unarrived old
          ])
          s)
  Step-IsStale net net' (accepts x y node before behind client tserver e same h) s =
      let arrived : IsArriving x y net =
        subst (Any (λ q. q ≡ (x, y))) (sym e)
          (Any-here (λ q. q ≡ (x, y)) before behind (x, y) refl) in
      calm-IsStale a b net y node (before ++ behind) net.flight
        (accept-KeepsClient client tserver (net.nodes y) node h)
        (λ at_b z. elim (accept-cases client tserver (net.nodes y) node a h z) [
          | inl old ↦ old
          | inr new ↦ absurd (
              s.unarrived (
                subst (λ (p : Bytes × Bytes). IsArriving p.0 p.1 net)
                  (λ i. ((sym same ∙ new) i, at_b i)) arrived))
        ])
        (λ z. s.unarrived (
          subst (Any (λ q. q ≡ (a, b))) (sym e)
            (Any-without (λ q. q ≡ (a, b)) before behind (x, y) z)))
        s
  Step-IsStale net net' (sends letter) s = record {
    kept = s.kept;
    undialed = s.undialed;
    unarrived = s.unarrived;
    unlisted = s.unlisted;
  }
  Step-IsStale net net' (delivers letter node before behind client e same h) s =
      let old = net.nodes letter.to in
      let listed = (receive_message-Keeps client letter.raw old node h).same_connections in
      calm-IsStale a b net letter.to node net.arriving (before ++ behind)
        (receive_message-KeepsClient client letter.raw old node h)
        (λ _. same-IsConnected a node old (sym listed)) s.unarrived s
  Step-IsStale net net' (rounds w all_heard) s =
      calm-IsStale a b net w (sweep (net.nodes w)) net.arriving net.flight
        (sweep-KeepsClient (net.nodes w)) (λ _. IsConnected-sweep a (net.nodes w)) s.unarrived s

  Event-IsStale :
      (net net' : Net) → FirstLives a net → Event net net' → IsStale a b net → IsStale a b net'
  Event-IsStale net net' lives (goes_on {next} step) s = Step-IsStale net next step s
  Event-IsStale net net' lives (fails x c some_thread) s =
      initialize-IsStale a b net false x c net.arriving net.flight some_thread s.unarrived s
  Event-IsStale net net' lives (drops w) s =
      calm-IsStale a b net w (sweep (net.nodes w)) net.arriving net.flight
        (sweep-KeepsClient (net.nodes w)) (λ _. IsConnected-sweep a (net.nodes w)) s.unarrived s
  Event-IsStale net net' lives (closes x) s =
      calm-IsStale a b net x (disconnected (net.nodes x)) net.arriving net.flight
        (unfold disconnected print in same-KeepsClient refl refl)
        (λ _ h. (unfold disconnected print in h)) s.unarrived s
  Event-IsStale net net' lives (turned x turn_made before behind nc e) s =
      put-IsStale a b net x (after_turn x turn_made before nc behind (net.nodes x)) net.arriving
        net.flight
        (λ _ h.
          is_active-replaced b before behind nc _
            (turn-server_ip x turn_made (link nc (net.nodes x)))
          ∙ ap (is_active b) (sym e)
          ∙ h)
        (λ _ _. omega arith) (λ _ h. h) s.unarrived s
  Event-IsStale net net' lives (joins x rest joined) s =
      let (nc, e, dead) = join_first-ended (net.nodes x).active_clients rest joined in
      put-IsStale a b net x (record (net.nodes x) { active_clients = rest }) net.arriving net.flight
        (λ same h.
          let heads : nc ∷ rest ≡ lives.first ∷ lives.others =
            sym e ∙ ap (λ j. (net.nodes j).active_clients) same ∙ lives.in_front in
          let first : nc ≡ lives.first = cc in
          let alive : nc.alive ≡ true = ap (λ (k : NClient). k.alive) first ∙ lives.lives in cc)
        (λ _ _. omega arith) (λ _ h. h) s.unarrived s

  FirstLives-last :
      (net net' : Net) → Always (FirstLives a) net net' → FirstLives a net → FirstLives a net'
  FirstLives-last net _ at_first lives = lives
  FirstLives-last net _ (and_event r e last_lives) lives = last_lives

  -- Let `a` be a node that lists a connection to `b`, as it does after `b` dropped it, but is no client
  -- of `b`, with no thread that connects to `b` and no connection that waits there. Then it stays so as long
  -- as the first connection that `a` lists has not ended, whatever the nodes do: they request
  -- connections, poke each other, connect or fail to, accept, send anything, drop clients, notice that
  -- a connection was closed, and end and join the threads of others.
  pub Always-IsStale :
      (net net' : Net)
      → Always (FirstLives a) net net'
      → FirstLives a net
      → IsStale a b net
      → IsStale a b net'
  Always-IsStale net _ at_first lives s = s
  Always-IsStale net _ (and_event {mid} {last} r e _) lives s =
      Event-IsStale mid last (FirstLives-last net mid r lives) e (Always-IsStale net mid r lives s)
