-- ===== src/Tests/Nodes.antt =====
-- Runs of a node.
use dave_coin.Base.{◌≡◌, refl, [], ◌∷◌, ◌↔◌, ℕ, arith}
use dave_coin.Bytes.{load, from_le, Bytes, ok, fault}
use dave_coin.Crypto.Toy.{toy}
use dave_coin.Packet.{simple_string, mined_block, read_header}
use dave_coin.Server.Faults.{Overruns, Returns, receive_message_ends}
use dave_coin.Node.{client_invalid, server_invalid, print}
use dave_coin.Tests.{memory}
use dave_coin.Client
use dave_coin.Client.Faults.{receive_message_short}
use dave_coin.Client.Effects.{Prints, receive_message-Prints}
use dave_coin.Server.Messages.{Keeps, receive_message-Keeps}
use dave_coin.Tests.Hub.{away, hub, log_tcp}
use dave_coin.Server
use dave_coin.Server.{sweep, accept}
use dave_coin.Client.{is_active, connect_to_server, initialize_client_connection}

abbrev quiet : Bytes
quiet = 0 ∷ 0 ∷ 0 ∷ 0 ∷ 4 ∷ 0 ∷ []

quiet_handled : Server.receive_message away quiet hub ≡ ok (print server_invalid hub)
unfolding Server.receive_message read_header load from_le
quiet_handled = refl

receive_message-Keeps_example : Keeps away hub (print server_invalid hub)
receive_message-Keeps_example =
    receive_message-Keeps away quiet hub (print server_invalid hub) quiet_handled

-- A simple string of five bytes, and none of them.
abbrev no_text : Bytes
no_text = 0 ∷ 175 ∷ 0 ∷ 250 ∷ 3 ∷ 0 ∷ 5 ∷ 0 ∷ 0 ∷ 0 ∷ []

receive_message_ends_example :
    ((Server.receive_message away no_text hub ≡ fault)
      ↔ ((read_header no_text ≡ ok simple_string) × Overruns no_text))
    × (Returns (Server.receive_message away no_text hub)
        ↔ (¬ ((read_header no_text ≡ ok simple_string) × Overruns no_text)))
receive_message_ends_example = receive_message_ends away no_text hub

-- A heartbeat, which only servers know.
abbrev pulse : Bytes
pulse = 0 ∷ 0 ∷ 0 ∷ 0 ∷ 2 ∷ 0 ∷ []

pulse_shown : Client.receive_message memory 1234 pulse hub ≡ ok (print client_invalid hub)
unfolding Client.receive_message read_header load from_le
pulse_shown = refl

receive_message-Prints_example :
    (k : ℕ) × (read_header pulse ≡ ok k) × Prints k hub (print client_invalid hub)
receive_message-Prints_example =
    receive_message-Prints memory 1234 pulse hub (print client_invalid hub) pulse_shown

-- The header of a block, and nothing else.
abbrev no_block : Bytes
no_block = 0 ∷ 175 ∷ 0 ∷ 250 ∷ 4 ∷ 0 ∷ []

no_block_header : read_header no_block ≡ ok mined_block
unfolding read_header load from_le
no_block_header = refl

receive_message_short_example : Client.receive_message memory 1234 no_block hub ≡ fault
receive_message_short_example =
    receive_message_short memory 1234 no_block hub no_block_header (omega arith)
