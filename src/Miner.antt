-- ===== src/Miner.antt =====
-- mine.hpp and mine.cpp: the search for a nonce. The clock is a function of the number of times it is
-- read, and what is sent to all clients is kept in a list.
pub mod Search
pub mod Arrival
use dave_coin.Base.{
  ℕ, zero, suc, ◌+◌, ◌-◌, ◌^◌, ◌%◌, List, [], ◌∷◌, Bool, true, false, ◌&&◌, Option, none, some,
  length, ltb, ◌==◌, if◌then◌else◌,
}
use dave_coin.Bytes.{Bytes}
use dave_coin.Crypto.{Crypto}
use dave_coin.Block.{Block, hash_block}
use dave_coin.Packet.{EncodedPacket, serialize_mined_block}

-- The character '0'.
abbrev pub zero_char : ℕ
zero_char = 48

-- `for (int i = 0; i < n; i++) if (hash[i] != '0') return false;` Behind the last byte stands a null.
unfoldable pub zero_chars : ℕ → Bytes → Bool
zero_chars zero hash = true
zero_chars (suc n) [] = false
zero_chars (suc n) (b ∷ hash) = b == zero_char && zero_chars n hash

abbrev pub uint32_max : ℕ
uint32_max = 2 ^ 32 - 1

abbrev pub check_every : ℕ
check_every = 10000

module _ ⦃c : Crypto⦄ where
  unfoldable pub is_mined : Block c.PublicKey → Bool
  unfolding zero_chars
  is_mined b = if ltb (length b.hash) b.bit_thresh then false else zero_chars b.bit_thresh b.hash

  -- How the loop over the nonces ends: `good` is the source's flag, and `sent` the packets handed to
  -- `NodeServer::SendMessageToAllClients`.
  pub record Scan (C : Type 0) : Type 0 where
    pub block : Block c.PublicKey
    pub attempts : ℕ
    pub good : Bool
    pub sent : List (EncodedPacket C)

  unfoldable pub broadcast_mined_block : {C : Type 0} → Block c.PublicKey → List (EncodedPacket C)
  broadcast_mined_block b = serialize_mined_block b ∷ []

  -- The `for` loop, with `left` values of the nonce to go.
  unfoldable pub scan : {C : Type 0} → ℕ → Block c.PublicKey → ℕ → Scan C
  unfolding broadcast_mined_block
  scan zero b attempts = record { block = b; attempts = attempts; good = false; sent = [] }
  scan (suc left) b attempts =
      let b' = hash_block b in
      let next = scan left (record b' { nonce = b'.nonce + 1 }) (attempts + 1) in
      if is_mined b'
      then record { block = b'; attempts = attempts; good = true; sent = broadcast_mined_block b' }
      else if (attempts + 1) % check_every == 0
      then record { block = b'; attempts = attempts + 1; good = true; sent = [] }
      else next

  -- The `while (true)` loop; `none` means that the fuel ran out.
  unfoldable pub mine_loop : {C : Type 0} → ℕ → (ℕ → ℕ) → Block c.PublicKey → ℕ → Option (Scan C)
  mine_loop zero clock b attempts = none
  mine_loop (suc fuel) clock b attempts =
      let s = scan uint32_max (record b { nonce = 0 }) attempts in
      let again =
        mine_loop fuel (λ k. clock (k + 1)) (record s.block { timestamp = clock 0 }) s.attempts in
      if s.good then some s else again

  -- `Miner::MineBlock`, with `fuel` rounds of the outer loop.
  unfoldable pub mine_block : {C : Type 0} → ℕ → (ℕ → ℕ) → Block c.PublicKey → Option (Scan C)
  unfolding mine_loop
  mine_block fuel clock b = mine_loop fuel clock b 0
