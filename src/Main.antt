-- ===== src/Main.antt =====
-- jc.cpp: the main program, which runs its checks and then starts the server and the client in two threads.
pub mod Startup
use dave_coin.Base.{ℕ, List, [], ◌∷◌, Bool, true, false, Option, if◌then◌else◌}
use dave_coin.Bytes.{Bytes, Outcome, ok}
use dave_coin.Checks.{and_then, Chance, test_transactions}
use dave_coin.Client.Init.{init_peers}
use dave_coin.Crypto.{Crypto, Dsa}
use dave_coin.Dict.{Dict, lookup}
use dave_coin.Node.{Node, NServer}
use dave_coin.Server.Start.{Thread, init}
use dave_coin.Tcp.{Tcp}

-- "dat/peers.dat".
abbrev pub peers_path : Bytes
peers_path = 100 ∷ 97 ∷ 116 ∷ 47 ∷ 112 ∷ 101 ∷ 101 ∷ 114 ∷ 115 ∷ 46 ∷ 100 ∷ 97 ∷ 116 ∷ []

module _ ⦃t : Tcp⦄ where
  abbrev pub serve : Bool × t.Server → Node → Outcome (Node × List Thread)
  serve started node =
      and_then (λ (s : NServer × List Thread). ok (record node { server = s.0 }, s.1))
        (init started node.server)

  -- `test_server_client`, up to the loops of the two threads, of which the first to run is chosen by
  -- `server_first`. An exception that leaves a thread ends the program. `started` is what `start` answers,
  -- `peers` is what the file of peers holds, and `busy` is what other threads do while it is read.
  unfoldable pub test_server_client :
      Bool
      → (ℕ → Node → Node)
      → Bool × t.Server
      → Option Bytes
      → Node
      → Outcome (Node × List Thread)
  unfolding init init_peers
  test_server_client server_first busy started peers node =
      if server_first
      then and_then
          (λ (s : Node × List Thread).
            and_then (λ node'. ok (node', s.1)) (init_peers busy peers s.0))
          (serve started node)
      else and_then (λ node'. serve started node') (init_peers busy peers node)

module _ ⦃t : Tcp⦄ ⦃c : Crypto⦄ where
  -- `main`, with the files that it finds. What the checks print does not matter, if they return.
  unfoldable pub main :
      Dsa
      → Chance
      → Dict Bytes
      → Bool
      → (ℕ → Node → Node)
      → Bool × t.Server
      → Node
      → Outcome (Node × List Thread)
  unfolding test_transactions test_server_client
  main d r files server_first busy started node =
      and_then
        (λ checks. test_server_client server_first busy started (lookup peers_path files) node)
        (test_transactions d r files)
