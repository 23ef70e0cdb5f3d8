-- ===== src/Tests/Start.antt =====
-- The start of a node: its mining thread and its address.
use dave_coin.Base.{
  false, ◌≡◌, ◌≢◌, ◌↔◌, ◌≤◌, refl, List, [], ◌∷◌, All, true, some, none, length, arith,
}
use dave_coin.Bytes.{Bytes, ok}
use dave_coin.Crypto.Toy.{alice, toy, toy_laws, toy_dsa}
use dave_coin.Keys.{generate_keys}
use dave_coin.MyIp.{Answers, get_my_ip}
use dave_coin.MyIp.Descriptors.{get_my_ip_lem}
use dave_coin.Packet.{EncodedPacket}
use dave_coin.Server.Start.{mine_thread, random_block, send_all}
use dave_coin.Server.Start.MineThread.{IsReceived, mine_thread_lem}
use dave_coin.Tests.{memory}
use dave_coin.Tests.Hub.{home, hub, log_tcp}

alice_drawn : generate_keys toy_dsa 2 0 0 ≡ ok (alice, alice)
unfolding generate_keys
alice_drawn = refl

mine_thread_lem_example :
    (sent : List (EncodedPacket Bytes)) × (mine_thread toy_dsa 2 0 0 memory 1000 1
        (λ k. 1000)
        hub.server
      ≡ ok (some (send_all sent hub.server)))
    × (length sent ≤ 1)
    × All (IsReceived memory 1234 (random_block memory 1000 alice) hub) sent
    × ((random_block memory 1000 alice).coinbase ≡ record { coins = 100; target = alice })
mine_thread_lem_example =
    mine_thread_lem toy_laws toy_dsa 2 0 0 memory 1000 0 (λ k. 1000) hub.server memory 1234 hub
      alice_drawn (omega arith)

abbrev answers : Answers
answers = record { socket = some 3; connects = true; names = false; text = none }

get_my_ip_lem_example :
    ((get_my_ip answers (0 ∷ 1 ∷ 2 ∷ [])).1 ≡ 0 ∷ 1 ∷ 2 ∷ [])
    × (((get_my_ip answers (0 ∷ 1 ∷ 2 ∷ [])).0 ≡ ok home) ↔ (
        (answers.socket ≢ none)
        × (answers.connects ≡ true)
        × (answers.names ≡ true)
        × (answers.text ≡ some home)))
get_my_ip_lem_example = get_my_ip_lem answers (0 ∷ 1 ∷ 2 ∷ []) home
