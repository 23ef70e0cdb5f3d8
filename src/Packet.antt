-- ===== src/Packet.antt =====
-- jumbopacket.hpp and jumbopacket.cpp: the messages that nodes exchange.
pub mod Header
pub mod RoundTrip
pub mod Sizes
use dave_coin.Base.{
  ◌==◌, ℕ, ◌^◌, List, [], ◌∷◌, ◌++◌, length, flatten, drop, ltb, if◌then◌else◌, ◌%◌,
}
use dave_coin.Bytes.{
  Bytes, to_le, Outcome, ok, throws, fault, out_of_range, Reader, ◌>>=◌, load, load_bytes, result,
  c_str,
}
use dave_coin.Crypto.{Crypto}
use dave_coin.Block
use dave_coin.Block.{Block, Garbage, decode_block}

abbrev pub magic_word : ℕ
magic_word = 0xFA00AF00

abbrev pub highest_message_type : ℕ
highest_message_type = 5

abbrev pub client_null : ℕ
client_null = 0

abbrev pub client_poke : ℕ
client_poke = 1

abbrev pub client_heartbeat : ℕ
client_heartbeat = 2

abbrev pub simple_string : ℕ
simple_string = 3

abbrev pub mined_block : ℕ
mined_block = 4

abbrev pub block_headers : ℕ
block_headers = 5

abbrev pub broadcast_tx : ℕ
broadcast_tx = 6

abbrev pub data_start : ℕ
data_start = 6

-- `C` is the type of the targets, clients of the TCP server.
pub record EncodedPacket (C : Type 0) : Type 0 where
  pub targets : List C
  pub serial : Bytes

unfoldable pub add_target : {C : Type 0} → C → EncodedPacket C → EncodedPacket C
add_target client p = record p { targets = p.targets ++ client ∷ [] }

pub record DecodedPacket (T : Type 0) : Type 0 where
  pub message_type : ℕ
  pub payload : T

-- `Packet::Serialize`, on what its stream holds.
abbrev pub serialize_packet : {C : Type 0} → Bytes → EncodedPacket C
serialize_packet stream = record { targets = []; serial = stream }

-- `Packet(message_type)`, what has been written to its stream since, and `Packet::Serialize`.
unfoldable pub packet_of : {C : Type 0} → ℕ → List Bytes → EncodedPacket C
packet_of message_type parts =
    serialize_packet (flatten (to_le 4 magic_word ∷ to_le 2 message_type ∷ parts))

-- Reads of a packet at a fixed offset: the cursor that the reader leaves is not kept.
unfoldable pub read_at : {A : Type 0} → Reader A → Bytes → ℕ → Outcome A
unfolding c_str
read_at m packet at = result (m (c_str packet) at)

-- The message type that the header names, or CLIENT_NULL. The magic word is read and not compared.
abbrev header_type : Outcome ℕ → Outcome ℕ → Outcome ℕ
header_type (ok magic) (ok message_type) =
    if ltb highest_message_type message_type then ok client_null else ok message_type
header_type (ok magic) (throws e) = throws e
header_type (ok magic) fault = fault
header_type (throws e) r = throws e
header_type fault r = fault

unfoldable pub read_header : Bytes → Outcome ℕ
unfolding read_at
read_header packet =
    if ltb (length packet) 6
    then ok client_null
    else header_type (read_at (load 4) packet 0) (read_at (load 2) packet 4)

-- A size and the text of that size, from `data_start` on.
unfoldable pub sized_text : Reader Bytes
sized_text = do size ← load 4; load_bytes size

abbrev decoded : {T : Type 0} → ℕ → Outcome T → Outcome (DecodedPacket T)
decoded message_type (ok x) = ok (record { message_type = message_type; payload = x })
decoded message_type (throws e) = throws e
decoded message_type fault = fault

unfoldable pub serialize_client_poke : {C : Type 0} → Bytes → EncodedPacket C
unfolding packet_of
serialize_client_poke ip =
    let size = length ip % 2 ^ 32 in packet_of client_poke (to_le 4 size ∷ ip ∷ [])

unfoldable pub decode_client_poke : Bytes → Outcome (DecodedPacket Bytes)
unfolding read_at sized_text
decode_client_poke packet = decoded client_poke (read_at sized_text packet data_start)

unfoldable pub serialize_heartbeat : {C : Type 0} → EncodedPacket C
unfolding packet_of
serialize_heartbeat = packet_of client_heartbeat []

-- The text "HEARTBEAT".
abbrev pub heartbeat_text : Bytes
heartbeat_text = 72 ∷ 69 ∷ 65 ∷ 82 ∷ 84 ∷ 66 ∷ 69 ∷ 65 ∷ 84 ∷ []

unfoldable pub decode_heartbeat : Bytes → Outcome (DecodedPacket Bytes)
decode_heartbeat packet = ok (record { message_type = client_heartbeat; payload = heartbeat_text })

unfoldable pub serialize_simple_string : {C : Type 0} → Bytes → EncodedPacket C
unfolding packet_of
serialize_simple_string str =
    let size = length str % 2 ^ 32 in packet_of simple_string (to_le 4 size ∷ str ∷ [])

unfoldable pub decode_simple_string : Bytes → Outcome (DecodedPacket Bytes)
unfolding read_at sized_text
decode_simple_string packet = decoded simple_string (read_at sized_text packet data_start)

module _ ⦃c : Crypto⦄ where
  unfoldable pub serialize_mined_block : {C : Type 0} → Block c.PublicKey → EncodedPacket C
  unfolding packet_of
  serialize_mined_block b = packet_of mined_block (Block.serialize b ∷ [])

  -- `packet.substr(DATA_START)` throws on a packet that is shorter.
  unfoldable pub decode_mined_block :
      Garbage → ℕ → Bytes → Outcome (DecodedPacket (Block c.PublicKey))
  decode_mined_block g now packet =
      if ltb (length packet) data_start
      then throws out_of_range
      else decoded mined_block (decode_block g now (drop data_start packet))
