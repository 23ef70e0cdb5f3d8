-- ===== src/Client/Messages.antt =====
-- What a node prints for the messages of the servers it is connected to.
use dave_coin.Base.{ℕ, ◌≡◌, refl, [], ◌∷◌, arith}
use dave_coin.Bytes.{ok}
use dave_coin.Crypto.{Crypto, Laws}
use dave_coin.Block.{Block, Garbage}
use dave_coin.Block.Fits.{BlockFits, ReadableTx}
use dave_coin.Node.{Node, print, client_block}
use dave_coin.Client.{show_block, receive_message, dispatch}
use dave_coin.Packet.{serialize_mined_block, read_header, mined_block}
use dave_coin.Packet.Header.{read_header-packet_of}
use dave_coin.Packet.RoundTrip.{decode-serialize_mined_block}
use dave_coin.Tcp.{Tcp}

header_mined_block :
    ⦃c : Crypto⦄ (C : Type 0) (b : Block c.PublicKey)
    → read_header (serialize_mined_block {C = C} b).serial ≡ ok mined_block
unfolding serialize_mined_block
header_mined_block C b = read_header-packet_of C mined_block (_ ∷ []) (omega arith)

module _ ⦃t : Tcp⦄ ⦃c : Crypto⦄ (laws : Laws) where
  -- The packet of `BroadcastBlock`, for a block that fits the format, with no transaction, or with
  -- one that has no output or one of fewer than 2 ^ 32 coins, is received as a block: the client
  -- prints so and changes nothing else.
  pub receive_message-mined_block :
      (g : Garbage) (now : ℕ) (b : Block c.PublicKey) (node : Node)
      → BlockFits b
      → ReadableTx b.tx
      → receive_message g now (serialize_mined_block {C = t.Client} b).serial node
        ≡ ok (print client_block node)
  unfolding dispatch show_block receive_message
  receive_message-mined_block g now b node f r =
      rw (header_mined_block t.Client b, decode-serialize_mined_block laws t.Client g now b f r)
        refl
