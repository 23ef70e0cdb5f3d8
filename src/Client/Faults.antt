-- ===== src/Client/Faults.antt =====
-- Messages on which the client's handler reads outside its buffer.
use dave_coin.Base.{
  ℕ, ◌<◌, ◌≡◌, refl, length, length-drop, drop, arith, ltb, false, Bool-cases, inl, inr,
}
use dave_coin.Block.{Garbage}
use dave_coin.Block.Short.{decode_block_short}
use dave_coin.Bytes.{Bytes, ok, fault}
use dave_coin.Client.{receive_message, dispatch, show_block}
use dave_coin.Crypto.{Crypto}
use dave_coin.Node.{Node}
use dave_coin.Packet.{read_header, client_null, mined_block, decode_mined_block}
use dave_coin.Tcp.{Tcp}

long_header : (raw : Bytes) → read_header raw ≡ ok mined_block → ltb (length raw) 6 ≡ false
unfolding read_header
long_header raw h = elim (Bool-cases (ltb (length raw) 6)) [
  | inl y ↦ let e : ok client_null ≡ ok mined_block = rw y at h in cc
  | inr n ↦ n
]

module _ ⦃t : Tcp⦄ ⦃c : Crypto⦄ where
  -- On a message whose header says that it is a block, and that has fewer than 46 bytes, the client's
  -- handler reads outside its buffer, whatever the other bytes are.
  pub receive_message_short :
      (g : Garbage) (now : ℕ) (raw : Bytes) (node : Node)
      → read_header raw ≡ ok mined_block
      → length raw < 46
      → receive_message g now raw node ≡ fault
  unfolding receive_message dispatch show_block decode_mined_block
  receive_message_short g now raw node h short =
      rw
        (
          h,
          long_header raw h,
          decode_block_short g now (drop 6 raw) (omega (arith, length-drop 6 raw)),
        )
        refl
