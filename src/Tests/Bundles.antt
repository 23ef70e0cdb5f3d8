-- ===== src/Tests/Bundles.antt =====
-- Messages that arrive with a heartbeat behind them.
use dave_coin.Base.{◌≡◌, [], ◌∷◌, ◌++◌, true, arith}
use dave_coin.Bytes.{Bytes, ok}
use dave_coin.Client.{connect_to_server}
use dave_coin.Crypto.Toy.{toy}
use dave_coin.Dict.{insert}
use dave_coin.Node.{print, server_text, server_invalid}
use dave_coin.Packet.{
  serialize_heartbeat, serialize_client_poke, serialize_simple_string, serialize_mined_block,
}
use dave_coin.Server.{receive_message}
use dave_coin.Server.Bundles.{receive_message_first}
use dave_coin.Tests.{small_block}
use dave_coin.Tests.Hub.{home, away, hub, log_tcp}

abbrev beat : Bytes
beat = (serialize_heartbeat {C = Bytes}).serial

receive_message_first_example :
    (receive_message away ((serialize_heartbeat {C = Bytes}).serial ++ beat) hub
      ≡ ok (record hub {
        server = record (hub.server) {
          client_heartbeats = insert away true hub.server.client_heartbeats;
        };
      }))
    × (receive_message away ((serialize_client_poke {C = Bytes} home).serial ++ beat) hub
        ≡ ok (connect_to_server away hub))
    × (receive_message away ((serialize_simple_string {C = Bytes} (104 ∷ [])).serial ++ beat) hub
        ≡ ok (print (server_text (104 ∷ [])) hub))
    × (receive_message away ((serialize_mined_block {C = Bytes} small_block).serial ++ beat) hub
        ≡ ok (print server_invalid hub))
receive_message_first_example =
    receive_message_first away home (104 ∷ []) beat small_block hub (omega arith)
