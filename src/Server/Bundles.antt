-- ===== src/Server/Bundles.antt =====
-- `NodeServer::ReceiveMessage` on what one `recv` of src/tcp returns when it returns a message and what was
-- sent behind it.
use dave_coin.Base.{ℕ, ◌<◌, ◌^◌, ◌%◌, ◌≡◌, refl, List, [], ◌∷◌, ◌++◌, true, arith, length, ap, ◌∙◌}
use dave_coin.Block
use dave_coin.Block.{Block}
use dave_coin.Bytes.{Bytes, to_le, ok}
use dave_coin.Client.{connect_to_server}
use dave_coin.Crypto.{Crypto}
use dave_coin.Dict.{insert}
use dave_coin.Node.{Node, print, server_text, server_invalid}
use dave_coin.Packet.{
  packet_of, read_header, client_heartbeat, client_poke, simple_string, mined_block,
  serialize_heartbeat, serialize_client_poke, serialize_simple_string, serialize_mined_block,
}
use dave_coin.Packet.Header.{read_header-packet_of}
use dave_coin.Packet.RoundTrip.{packet_of-behind, decode_simple_string-behind}
use dave_coin.Server.{receive_message, dispatch, show_text}
use dave_coin.Tcp.{Tcp}

-- The bytes behind a packet do not change its header.
header-behind :
    (C : Type 0) (k : ℕ) (parts : List Bytes) (rest : Bytes)
    → k < 6
    → read_header ((packet_of {C = C} k parts).serial ++ rest) ≡ ok k
header-behind C k parts rest h =
    ap read_header (packet_of-behind C k parts rest)
    ∙ read_header-packet_of C k (parts ++ rest ∷ []) (omega arith)
    ∙ ground (arith, h)

text_header :
    (C : Type 0) (s rest : Bytes)
    → read_header ((serialize_simple_string {C = C} s).serial ++ rest) ≡ ok simple_string
unfolding serialize_simple_string
text_header C s rest =
    header-behind C simple_string (to_le 4 (length s % 2 ^ 32) ∷ s ∷ []) rest (omega arith)

module _ ⦃t : Tcp⦄ ⦃c : Crypto⦄ where
  -- When a heartbeat, a poke, a text of fewer than 2 ^ 32 bytes or a block arrives with any bytes behind it,
  -- the server does what it does on that message alone: it notes the heartbeat, asks for a connection to
  -- the client, prints the text, or prints that the message is invalid. Whatever messages the bytes
  -- behind it hold are lost.
  pub receive_message_first :
      (client : t.Client) (ip s rest : Bytes) (b : Block c.PublicKey) (node : Node)
      → length s < 2 ^ 32
      → (receive_message client ((serialize_heartbeat {C = t.Client}).serial ++ rest) node
          ≡ ok (record node {
            server = record (node.server) {
              client_heartbeats = insert (t.get_ip client) true node.server.client_heartbeats;
            };
          }))
        × (receive_message client ((serialize_client_poke {C = t.Client} ip).serial ++ rest) node
            ≡ ok (connect_to_server (t.get_ip client) node))
        × (receive_message client ((serialize_simple_string {C = t.Client} s).serial ++ rest) node
            ≡ ok (print (server_text s) node))
        × (receive_message client ((serialize_mined_block {C = t.Client} b).serial ++ rest) node
            ≡ ok (print server_invalid node))
  unfolding receive_message dispatch show_text serialize_heartbeat serialize_client_poke
      serialize_mined_block
  receive_message_first client ip s rest b node h =
      let C = t.Client in
      let size = to_le 4 (length ip % 2 ^ 32) in
      (
        rw (header-behind C client_heartbeat [] rest (omega arith)) refl,
        rw (header-behind C client_poke (size ∷ ip ∷ []) rest (omega arith)) refl,
        rw (text_header C s rest, decode_simple_string-behind C s rest h) refl,
        rw (header-behind C mined_block (Block.serialize b ∷ []) rest (omega arith)) refl,
      )
