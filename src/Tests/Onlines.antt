-- ===== src/Tests/Onlines.antt =====
-- Home starts with away as its peer, and all others with none.
use dave_coin.Base.{
  ◌≤◌, ◌<◌, ◌⊎◌, ◌≢◌, refl, List, [], ◌∷◌, true, All, inl, inr, Bool-cases, if◌then◌else◌, arith,
  subst,
}
use dave_coin.Bytes.{Bytes}
use dave_coin.Client.Init.{newline}
use dave_coin.Dict.{same_bytes, same_bytes_iff}
use dave_coin.Main.Startup.{started_up, test_server_client_lem}
use dave_coin.Client.{initialize_client_connection}
use dave_coin.Client.Dedup.{pending}
use dave_coin.Network.{Net, after_establishing, establishes, IsActive, IsClient}
use dave_coin.Network.Drain.{IsIn, Works, work, no_work, and_work}
use dave_coin.Network.Online.{StartsUp, at_start, peers-converge}
use dave_coin.Node.{Node}
use dave_coin.Server.Start.{Thread, heartbeat_loop, client_loop, mine_loop}
use dave_coin.Tests.Drains.{both, both-Distinct, reachable, home_in, away_in}
use dave_coin.Tests.Hub.{home, away, log_tcp}
use dave_coin.Tests.Networks.{blank}

abbrev peers_of : Bytes → List Bytes
peers_of y = if same_bytes home y then away ∷ [] else []

-- What holds of no peers, and of away as the peer of home, holds of all peers.
peers-elim :
    (P : Bytes → List Bytes → Type 0) (y : Bytes)
    → P home (away ∷ [])
    → ((y : Bytes) → P y [])
    → P y (peers_of y)
peers-elim P y one none = elim (Bool-cases (same_bytes home y)) [
  | inl e ↦ rw e (subst (λ j. P j (away ∷ [])) ((same_bytes_iff home y).0 e) one)
  | inr n ↦ rw n (none y)
]

peers_clean : (y : Bytes) → All (All (λ x. x ≢ newline)) (peers_of y)
peers_clean y =
    peers-elim (λ j ips. All (All (λ x. x ≢ newline)) ips) y (((λ e. omega (arith, e)), tt), tt)
      (λ _. tt)

abbrev up : Bytes → Node × List Thread
up y = (started_up [] (peers_of y) blank, heartbeat_loop ∷ client_loop ∷ mine_loop ∷ [])

up-StartsUp : (y : Bytes) → StartsUp (peers_of y) (up y)
up-StartsUp y = record {
  before = blank;
  no_actives = refl;
  no_threads = refl;
  no_clients = refl;
  no_newlines = peers_clean y;
  server_first = true;
  tserver = [];
  starts = test_server_client_lem true [] (peers_of y) blank (peers_clean y) refl;
}

away_listed : IsIn away (peers_of home)
unfolding same_bytes
away_listed = inl refl

one_thread : 0 < pending away ((at_start up).nodes home).connecting
unfolding same_bytes
one_thread = omega arith

-- Home's thread has connected.
abbrev next_net : Net
next_net =
    after_establishing home away (at_start up)
      (initialize_client_connection true home away ((at_start up).nodes home))

one_step : Works (at_start up) 1 next_net
one_step = and_work no_work (establishes home away _ one_thread refl) tt

peers-converge_example :
    (1 ≤ work both (at_start up))
    × (((next : Net) × Works (at_start up) 2 next)
        ⊎ (IsActive home away next_net
            × IsActive away home next_net
            × IsClient home away next_net
            × IsClient away home next_net))
peers-converge_example =
    peers-converge both peers_of up home away 1 next_net both-Distinct reachable up-StartsUp
      (λ y.
        peers-elim (λ j ips. All (λ x. IsIn j both × IsIn x both) ips) y ((home_in, away_in), tt)
          (λ _. tt))
      away_listed one_step
