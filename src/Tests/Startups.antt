-- ===== src/Tests/Startups.antt =====
-- The start of a whole node, from its key files and its list of peers, with a thread that connects while the
-- list is read.
use dave_coin.Base.{ℕ, zero, suc, arith, ◌≡◌, refl, true, List, [], ◌∷◌, some}
use dave_coin.Bytes.{Bytes, ok}
use dave_coin.Checks.{public_file, private_file, test_transactions}
use dave_coin.Checks.Pass.{test_transactions_passes}
use dave_coin.Client.{
  is_active, finished, connect_to_server, connect_peers, initialize_client_connection,
}
use dave_coin.Client.Init.Peers.{peers_file}
use dave_coin.Crypto.Toy.{alice, toy, toy_laws, toy_type, toy_type_laws, toy_dsa}
use dave_coin.Dict.{Dict, same_bytes, insert, lookup, before}
use dave_coin.Keys.{save_key}
use dave_coin.Main.{peers_path, main}
use dave_coin.Main.Startup.{main_iff}
use dave_coin.Node.{Node, print}
use dave_coin.Server.Start.{Thread}
use dave_coin.Tests.Hub.{home, away, hub, log_tcp}
use dave_coin.Tests.MainChecks.{chance, alice_made, bob_made, bob-other}

abbrev peers_only : Dict Bytes
peers_only = (peers_path, peers_file (away ∷ away ∷ [])) ∷ []

abbrev with_public : Dict Bytes
with_public = (peers_path, peers_file (away ∷ away ∷ [])) ∷ (public_file, 48 ∷ 1 ∷ []) ∷ []

abbrev all_files : Dict Bytes
all_files =
    (peers_path, peers_file (away ∷ away ∷ []))
    ∷ (private_file, 48 ∷ 1 ∷ [])
    ∷ (public_file, 48 ∷ 1 ∷ [])
    ∷ []

public_there : save_key toy_type (λ f. true) public_file alice peers_only ≡ ok with_public
unfolding save_key insert same_bytes before
public_there = refl

private_there : save_key toy_type (λ f. true) private_file alice with_public ≡ ok all_files
unfolding save_key insert same_bytes before
private_there = refl

peers_there : lookup peers_path all_files ≡ some (peers_file (away ∷ away ∷ []))
unfolding lookup same_bytes
peers_there = refl

checks_pass : test_transactions toy_dsa chance all_files ≡ ok (true, true)
checks_pass =
    test_transactions_passes toy_laws toy_dsa toy_type_laws toy_type_laws (λ f. true) 2 0 0
      peers_only chance alice_made public_there private_there refl refl bob_made bob-other
      (omega arith)

-- The first line's thread connects before the second line is read.
abbrev swift : ℕ → Node → Node
swift zero node = node
swift (suc k) node = initialize_client_connection true home away node

-- Then the second line starts no thread.
one_thread_for_two_lines : (connect_peers swift (away ∷ away ∷ []) hub).connecting ≡ []
unfolding connect_peers connect_to_server initialize_client_connection is_active finished same_bytes
    print
one_thread_for_two_lines = refl

starts :
    (result : Node × List Thread) × (main toy_dsa chance all_files true swift (true, []) hub
      ≡ ok result)
starts =
    (main_iff toy_dsa chance all_files true true swift [] hub).1
      (((true, true), checks_pass), refl, (peers_file (away ∷ away ∷ []), peers_there))
