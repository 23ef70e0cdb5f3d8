-- ===== src/Tests/Packets.antt =====
-- Runs of the packet code on concrete packets.
use dave_coin.Base.{ℕ, ◌≤◌, ◌≡◌, [], ◌∷◌, arith}
use dave_coin.Bytes.{ok}
use dave_coin.Crypto.Toy.{toy}
use dave_coin.Packet.{
  read_header, client_poke, simple_string, serialize_client_poke, serialize_simple_string,
  decode_client_poke, decode_simple_string,
}
use dave_coin.Packet.Header.{read_header_total}
use dave_coin.Packet.RoundTrip.{decode-serialize_text}

read_header_total_example :
    (n : ℕ) × (read_header (0 ∷ 0 ∷ 0 ∷ 0 ∷ 255 ∷ 255 ∷ []) ≡ ok n) × (n ≤ 5)
read_header_total_example = read_header_total (0 ∷ 0 ∷ 0 ∷ 0 ∷ 255 ∷ 255 ∷ [])

decode-serialize_text_example :
    (decode_client_poke (serialize_client_poke {C = ℕ} (49 ∷ [])).serial
      ≡ ok (record { message_type = client_poke; payload = 49 ∷ [] }))
    × (decode_simple_string (serialize_simple_string {C = ℕ} (104 ∷ [])).serial
        ≡ ok (record { message_type = simple_string; payload = 104 ∷ [] }))
decode-serialize_text_example =
    decode-serialize_text ℕ (49 ∷ []) (104 ∷ []) (omega arith) (omega arith)
