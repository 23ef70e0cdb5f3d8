-- ===== src/Network/Online.antt =====
-- Nodes that start up with their lists of peers, and what becomes of them.
use dave_coin.Base.{
  ◌≤◌, ℕ, suc, ◌<◌, ◌≡◌, ◌≢◌, sym, ap, subst, ◌∙◌, ◌⊎◌, List, [], ◌∷◌, ◌++◌, Bool, true, some,
  arith, All, inl, inr,
}
use dave_coin.Bytes.{Bytes, ok}
use dave_coin.Client.{is_active}
use dave_coin.Client.Dedup.{pending}
use dave_coin.Client.Init.{newline}
use dave_coin.Client.Init.Peers.{peers_file, idle}
use dave_coin.Dict.{same_bytes_refl, lookup}
use dave_coin.Main.{test_server_client}
use dave_coin.Main.Startup.{started_up, test_server_client_lem}
use dave_coin.Network.{Net, no_step, IsActive, IsDialing, IsClient}
use dave_coin.Network.Drain.{IsIn, Distinct, IsAmong, work, Works, no_work, and_work}
use dave_coin.Network.Drain.Progress.{AllReachable}
use dave_coin.Network.Drain.Settles.{Works-end, Works-Steps, settled_mutual}
use dave_coin.Network.Moves.{ok_node}
use dave_coin.Network.Mutual.{IsSettled, IsFresh, Step-Change}
use dave_coin.Node.{Node}
use dave_coin.Server.Start.{Thread}
use dave_coin.Tcp.{Tcp}

pending-IsIn : (ip : Bytes) (ips : List Bytes) → IsIn ip ips → 0 < pending ip ips
pending-IsIn ip [] h = elim h [ ]
pending-IsIn ip (j ∷ js) (inl e) = ground (arith, e, same_bytes_refl ip)
pending-IsIn ip (j ∷ js) (inr h) = ground (arith, pending-IsIn ip js h)

module _ ⦃t : Tcp⦄ where
  -- `test_server_client` has started a node to which nothing had happened, with these lines of peers.dat and
  -- a TCP server that started, whichever of its two threads ran first; no other thread did anything to
  -- the node until the file was read.
  pub record StartsUp (peers : List Bytes) (started : Node × List Thread) : Type 0 where
    pub before : Node
    pub no_actives : before.active_clients ≡ []
    pub no_threads : before.connecting ≡ []
    pub no_clients : before.server.connected_clients ≡ []
    pub no_newlines : All (All (λ x. x ≢ newline)) peers
    pub server_first : Bool
    pub tserver : t.Server
    pub starts :
        test_server_client server_first idle (true, tserver) (some (peers_file peers)) before
        ≡ ok started

  -- The network of nodes at their start.
  abbrev pub at_start : (Bytes → Node × List Thread) → Net
  at_start started = record { nodes = λ y. (started y).0; arriving = []; flight = [] }

  -- A request lasts until there is a connection.
  Works-asked :
      (a b : Bytes) (net net' : Net) (n : ℕ)
      → Works net n net'
      → IsDialing a b net
      → IsDialing a b net' ⊎ IsActive a b net'
  Works-asked a b net _ _ no_work h = inl h
  Works-asked a b net _ _ (and_work {n} {mid} {last} r s is_work) h =
      let change = Step-Change mid last s in
      elim (Works-asked a b net mid n r h) [
        | inl dialing ↦ change.dialing a b dialing
        | inr active ↦ inr (change.active a b active)
      ]

  node-StartsUp :
      (peers : List Bytes) (started : Node × List Thread) (h : StartsUp peers started)
      → started.0 ≡ started_up h.tserver peers h.before
  node-StartsUp peers started h =
      ap (λ (s : Node × List Thread). s.0)
        (ok_node (
          sym h.starts
          ∙ test_server_client_lem h.server_first h.tserver peers h.before h.no_newlines
              h.no_actives))

  connecting-StartsUp :
      (peers : List Bytes) (started : Node × List Thread)
      → StartsUp peers started
      → (started.0).connecting ≡ peers
  connecting-StartsUp peers started h =
      ap (λ (n : Node). n.connecting) (node-StartsUp peers started h)
      ∙ ap (λ l. l ++ peers) h.no_threads

  settled_active :
      (a b : Bytes) (net net' : Net) (n : ℕ)
      → Works net n net'
      → IsDialing a b net
      → IsSettled net'
      → IsActive a b net'
  settled_active a b net net' n r dials settled = elim (Works-asked a b net net' n r dials) [
    | inl dialing ↦ absurd (settled.none_dialing a b dialing)
    | inr active ↦ active
  ]

  module _ (peers : Bytes → List Bytes) (started : Bytes → Node × List Thread)
      (up : (y : Bytes) → StartsUp (peers y) (started y)) where
    at_start-IsFresh : IsFresh (at_start started)
    unfolding is_active lookup
    at_start-IsFresh = record {
      none_active = λ a b h. absurd (
          ground (
            arith,
            rw
                (ap (λ (n : Node). n.active_clients) (node-StartsUp (peers a) (started a) (up a))
                  ∙ (up a).no_actives)
                at h,
          ));
      none_client = λ a b (client, h). absurd (
          ground (
            arith,
            rw
                (ap (λ (n : Node). n.server.connected_clients)
                    (node-StartsUp (peers b) (started b) (up b))
                  ∙ (up b).no_clients)
                at h,
          ));
      none_arriving = λ a b h. h;
    }

    at_start-IsAmong :
        (who : List Bytes)
        → ((y : Bytes) → All (λ x. IsIn y who × IsIn x who) (peers y))
        → IsAmong who (at_start started)
    at_start-IsAmong who h = record {
      dialers = λ y.
          subst (All (λ x. IsIn y who × IsIn x who))
            (sym (connecting-StartsUp (peers y) (started y) (up y))) (h y);
      arrivals = tt;
      letters = tt;
    }

  -- Nodes at finitely many addresses start up, with no connection and no client before, each with a TCP
  -- server that starts and a peers.dat that lists some of these addresses, one on a line, which it
  -- reads before any of its threads has connected or any client has reached it, and let there be a
  -- connected client for every address. In whatever order their threads connect, their servers accept
  -- and handle messages, as long as each `connectTo` succeeds, no round of a heartbeat loop drops a
  -- client, and no loop of a connection sends anything meanwhile: they make no more steps than `work`
  -- says, and when they can make no more then each node `a` and each of its peers `b` are connected to
  -- each other, and each is a client of the other's server.
  pub peers-converge :
      (who : List Bytes) (peers : Bytes → List Bytes) (started : Bytes → Node × List Thread)
      (a b : Bytes) (n : ℕ) (last : Net)
      → Distinct who
      → AllReachable
      → ((y : Bytes) → StartsUp (peers y) (started y))
      → ((y : Bytes) → All (λ x. IsIn y who × IsIn x who) (peers y))
      → IsIn b (peers a)
      → Works (at_start started) n last
      → (n ≤ work who (at_start started))
        × (((next : Net) × Works (at_start started) (suc n) next)
            ⊎ (IsActive a b last × IsActive b a last × IsClient a b last × IsClient b a last))
  peers-converge who peers started a b n last d reachable up listed peer r =
      let net = at_start started in
      let dials : IsDialing a b net =
        subst (λ l. 0 < pending b l) (sym (connecting-StartsUp (peers a) (started a) (up a)))
          (pending-IsIn b (peers a) peer) in
      let (bounded, ends) =
        Works-end who net last n d reachable (at_start-IsAmong peers started up who listed) r in
      (
        bounded,
        elim ends [
          | inr more ↦ inl more
          | inl settled ↦
              let active = settled_active a b net last n r dials settled in
              let (back, client, client') =
                settled_mutual net last a b (at_start-IsFresh peers started up)
                  (Works-Steps net net last n no_step r) settled active in
              inr (active, back, client, client')
        ],
      )
