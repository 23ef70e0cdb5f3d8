-- ===== src/Main/Startup.antt =====
-- When and how the node starts.
use dave_coin.Base.{
  ◌↔◌, ℕ, ◌≡◌, refl, ap, List, [], ◌∷◌, ◌++◌, Bool, true, false, Option, none, some, All, ◌≢◌,
}
use dave_coin.Bytes.{Bytes, Outcome, ok, throws, fault}
use dave_coin.Checks.{and_then, Chance, test_transactions}
use dave_coin.Client.Init.{init_peers, newline}
use dave_coin.Client.Init.Peers.{idle, peers_file, init_peers_lem}
use dave_coin.Crypto.{Crypto, Dsa}
use dave_coin.Dict.{Dict, lookup}
use dave_coin.Main.{serve, peers_path, test_server_client, main}
use dave_coin.Node.{Node, NServer}
use dave_coin.Server.Start.{Thread, init, heartbeat_loop, client_loop, mine_loop}
use dave_coin.Tcp.{Tcp}

-- What is behind a call that returns has a call that returns.
and_then-ok {ℓ κ} :
    {A : Type ℓ} {B : Type κ} (f : A → Outcome B) (o : Outcome A) (b : B)
    → and_then f o ≡ ok b
    → (a : A) × (o ≡ ok a) × (f a ≡ ok b)
and_then-ok f (ok a) b h = (a, refl, h)
and_then-ok f (throws e) b h = cc
and_then-ok f fault b h = cc

module _ ⦃t : Tcp⦄ where
  -- The node when both threads have started up and no thread has connected yet.
  abbrev pub started_up : t.Server → List Bytes → Node → Node
  started_up tserver ips node = record node {
    server = record (node.server) { tserver = t.subscribe tserver [] };
    connecting = node.connecting ++ ips;
  }

  pub test_server_client_lem :
      (server_first : Bool) (tserver : t.Server) (ips : List Bytes) (node : Node)
      → All (All (λ x. x ≢ newline)) ips
      → node.active_clients ≡ []
      → test_server_client server_first idle (true, tserver) (some (peers_file ips)) node
        ≡ ok (started_up tserver ips node, heartbeat_loop ∷ client_loop ∷ mine_loop ∷ [])
  unfolding test_server_client init
  test_server_client_lem true tserver ips node clean h =
      let subscribed = record node {
        server = record (node.server) { tserver = t.subscribe tserver [] };
      } in
      ap (and_then (λ node'. ok (node', heartbeat_loop ∷ client_loop ∷ mine_loop ∷ [])))
        (init_peers_lem ips subscribed clean h)
  test_server_client_lem false tserver ips node clean h =
      ap (and_then (λ node'. serve (true, tserver) node')) (init_peers_lem ips node clean h)

  init-ok :
      (success : Bool) (tserver : t.Server) (s : NServer) (result : NServer × List Thread)
      → init (success, tserver) s ≡ ok result
      → success ≡ true
  unfolding init
  init-ok true tserver s result h = refl
  init-ok false tserver s result h = cc

  serve-ok :
      (success : Bool) (tserver : t.Server) (node : Node) (result : Node × List Thread)
      → serve (success, tserver) node ≡ ok result
      → success ≡ true
  serve-ok success tserver node result h =
      let (s, e, _) = and_then-ok _ (init (success, tserver) node.server) result h in
      init-ok success tserver node.server s e

  init_peers-ok :
      (busy : ℕ → Node → Node) (peers : Option Bytes) (node node' : Node)
      → init_peers busy peers node ≡ ok node'
      → (text : Bytes) × (peers ≡ some text)
  unfolding init_peers
  init_peers-ok busy none node node' h = cc
  init_peers-ok busy (some text) node node' h = (text, refl)

  test_server_client-ok :
      (server_first success : Bool) (busy : ℕ → Node → Node) (tserver : t.Server)
      (peers : Option Bytes) (node : Node) (result : Node × List Thread)
      → test_server_client server_first busy (success, tserver) peers node ≡ ok result
      → (success ≡ true) × ((text : Bytes) × (peers ≡ some text))
  unfolding test_server_client
  test_server_client-ok true success busy tserver peers node result h =
      let (s, served, rest) = and_then-ok _ (serve (success, tserver) node) result h in
      let (node', opened, _) = and_then-ok _ (init_peers busy peers s.0) result rest in
      (serve-ok success tserver node s served, init_peers-ok busy peers s.0 node' opened)
  test_server_client-ok false success busy tserver peers node result h =
      let (node', opened, served) = and_then-ok _ (init_peers busy peers node) result h in
      (serve-ok success tserver node' result served, init_peers-ok busy peers node node' opened)

  test_server_client-returns :
      (server_first : Bool) (busy : ℕ → Node → Node) (tserver : t.Server) (text : Bytes)
      (node : Node)
      → (result : Node × List Thread) × (test_server_client server_first busy
            (true, tserver)
            (some text)
            node
          ≡ ok result)
  unfolding test_server_client init init_peers
  test_server_client-returns true busy tserver text node = (_, refl)
  test_server_client-returns false busy tserver text node = (_, refl)

module _ ⦃t : Tcp⦄ ⦃c : Crypto⦄ where
  pub main_iff :
      (d : Dsa) (r : Chance) (files : Dict Bytes) (server_first success : Bool)
      (busy : ℕ → Node → Node) (tserver : t.Server) (node : Node)
      → ((result : Node × List Thread) × (main d r files server_first busy (success, tserver) node
            ≡ ok result))
        ↔ (((checks : Bool × Bool) × (test_transactions d r files ≡ ok checks))
            × (success ≡ true)
            × ((text : Bytes) × (lookup peers_path files ≡ some text)))
  unfolding main
  main_iff d r files server_first success busy tserver node = (
    (λ (result, h).
        let (checks, passed, rest) = and_then-ok _ (test_transactions d r files) result h in
        let (started, opened) =
          test_server_client-ok server_first success busy tserver (lookup peers_path files) node
            result rest in
        ((checks, passed), started, opened)),
    (λ ((checks, passed), started, (text, there)).
        rw (passed, started, there)
          (test_server_client-returns server_first busy tserver text node)),
  )
