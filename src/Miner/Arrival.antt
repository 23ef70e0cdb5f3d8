-- ===== src/Miner/Arrival.antt =====
-- What the miner sends, at the node that receives it.
use dave_coin.Base.{
  ap, List, [], ◌∷◌, length, ◌≤◌, ℕ, suc, ◌<◌, ◌≡◌, refl, subst, sym, ◌∙◌, All, true, some, map,
  arith, inl, inr,
}
use dave_coin.Bytes.{ok}
use dave_coin.Crypto.{Crypto, Laws}
use dave_coin.Sig.{calculate_sha256}
use dave_coin.Block
use dave_coin.Block.{Block, Garbage, hash_block}
use dave_coin.Block.Fits.{BlockFits, ReadableTx}
use dave_coin.Block.RoundTrip.{received_tx}
use dave_coin.Miner.{Scan, is_mined, mine_block, check_every}
use dave_coin.Miner.Search.{candidate, mine_block_result}
use dave_coin.Packet.{
  DecodedPacket, EncodedPacket, decode_mined_block, serialize_mined_block, mined_block,
}
use dave_coin.Packet.RoundTrip.{decode-serialize_mined_block}

module _ ⦃c : Crypto⦄ where
  candidate-BlockFits :
      (b : Block c.PublicKey) (n : ℕ) → n < check_every → BlockFits b → BlockFits (candidate b n)
  unfolding candidate hash_block
  candidate-BlockFits b n small h = record {
    index_fits = h.index_fits;
    bit_thresh_fits = h.bit_thresh_fits;
    prev_hash_fits = h.prev_hash_fits;
    nonce_fits = omega arith;
    timestamp_fits = h.timestamp_fits;
    coins_fits = h.coins_fits;
    tx_count = h.tx_count;
    tx_fit = h.tx_fit;
  }

  candidate-ReadableTx :
      (b : Block c.PublicKey) (n : ℕ) → ReadableTx b.tx → ReadableTx (candidate b n).tx
  unfolding candidate hash_block
  candidate-ReadableTx b n h = h

  hash-candidate-serialize :
      (b : Block c.PublicKey) (n : ℕ)
      → (candidate b n).hash ≡ calculate_sha256 (Block.serialize (candidate b n))
  unfolding candidate hash_block Block.serialize
  hash-candidate-serialize b n = refl

  is_mined-cong :
      (b d : Block c.PublicKey)
      → d.bit_thresh ≡ b.bit_thresh
      → d.hash ≡ b.hash
      → is_mined d ≡ is_mined b
  unfolding is_mined
  is_mined-cong b d e e' = rw (e, e') refl

  -- `p` is the packet of a mined block that the format can hold, for the transactions of `b` and with
  -- its coinbase and predecessor.
  pub record IsPacketFor {C : Type 0} (b : Block c.PublicKey) (p : EncodedPacket C) : Type 0 where
    pub block : Block c.PublicKey
    pub is_packet : p ≡ serialize_mined_block block
    pub fits : BlockFits block
    pub readable : ReadableTx block.tx
    pub is_solved : is_mined block ≡ true
    pub own_hash : block.hash ≡ calculate_sha256 (Block.serialize block)
    pub same_coinbase : block.coinbase ≡ b.coinbase
    pub same_prev_hash : block.prev_hash ≡ b.prev_hash

  candidate-IsPacketFor :
      {C : Type 0} (b : Block c.PublicKey) (n : ℕ)
      → n < check_every
      → BlockFits b
      → ReadableTx b.tx
      → is_mined (candidate b n) ≡ true
      → IsPacketFor {C = C} b (serialize_mined_block (candidate b n))
  candidate-IsPacketFor b n below fits small mined = record {
    block = candidate b n;
    is_packet = refl;
    fits = candidate-BlockFits b n below fits;
    readable = candidate-ReadableTx b n small;
    is_solved = mined;
    own_hash = hash-candidate-serialize b n;
    same_coinbase = unfold candidate hash_block in refl;
    same_prev_hash = unfold candidate hash_block in refl;
  }

  -- What `MineBlock` sends: at most one packet, of a mined block.
  pub mine_block-IsPacketFor :
      (C : Type 0) (fuel : ℕ) (clock : ℕ → ℕ) (b : Block c.PublicKey)
      → BlockFits b
      → ReadableTx b.tx
      → (s : Scan C) × (mine_block (suc fuel) clock b ≡ some s)
        × (length s.sent ≤ 1)
        × All (IsPacketFor b) s.sent
  mine_block-IsPacketFor C fuel clock b fits small =
      let (s, e, r) = mine_block_result C fuel clock b in
      let sends = λ (x : Scan C). (length x.sent ≤ 1) × All (IsPacketFor b) x.sent in
      let out : (length s.sent ≤ 1) × All (IsPacketFor b) s.sent = elim r [
        | inl (n, _, below, _, mined, found) ↦
            subst sends (sym found)
              (omega arith, (candidate-IsPacketFor b n below fits small mined, tt))
        | inr (_, gave_up) ↦ subst sends (sym gave_up) (omega arith, tt)
      ] in
      (s, e, out.0, out.1)

  -- `p` is decoded to a block that counts as mined, with the coinbase and the predecessor of `b`.
  abbrev pub ArrivesMined :
      {C : Type 0} → Garbage → ℕ → Block c.PublicKey → EncodedPacket C → Type 0
  ArrivesMined g now b p =
      (d : DecodedPacket (Block c.PublicKey)) × (decode_mined_block g now p.serial ≡ ok d)
      × (is_mined d.payload ≡ true)
      × (d.payload.coinbase ≡ b.coinbase)
      × (d.payload.prev_hash ≡ b.prev_hash)

module _ ⦃c : Crypto⦄ (laws : Laws) where
  pub arrives :
      {C : Type 0} (g : Garbage) (now : ℕ) (b : Block c.PublicKey) (p : EncodedPacket C)
      → IsPacketFor b p
      → ArrivesMined g now b p
  arrives {C} g now b p h =
      let k = h.block in
      let k' : Block c.PublicKey = record k {
        tx = map (received_tx (Block.serialize k)) k.tx;
        solved = g.solved;
        hash = calculate_sha256 (Block.serialize k);
      } in
      (
        record { message_type = mined_block; payload = k' },
        ap (λ (q : EncodedPacket C). decode_mined_block g now q.serial) h.is_packet
            ∙ decode-serialize_mined_block laws C g now k h.fits h.readable,
        is_mined-cong k k' refl (sym h.own_hash) ∙ h.is_solved,
        h.same_coinbase,
        h.same_prev_hash,
      )

  All-arrives :
      {C : Type 0} (g : Garbage) (now : ℕ) (b : Block c.PublicKey) (ps : List (EncodedPacket C))
      → All (IsPacketFor b) ps
      → All (ArrivesMined g now b) ps
  All-arrives g now b [] h = tt
  All-arrives g now b (p ∷ ps) (h, hs) = (arrives g now b p h, All-arrives g now b ps hs)

  -- `MineBlock` ends in the first round of its outer loop and has sent at most one packet, which
  -- `DecodeMinedBlock` decodes to a block that counts as mined and has the coinbase and the predecessor
  -- of the block that was mined, if this fits the format and has no transaction, or one that has no
  -- output or one of fewer than 2 ^ 32 coins.
  pub mine_block_arrives :
      (C : Type 0) (fuel : ℕ) (clock : ℕ → ℕ) (b : Block c.PublicKey) (g : Garbage) (now : ℕ)
      → BlockFits b
      → ReadableTx b.tx
      → (s : Scan C) × (mine_block (suc fuel) clock b ≡ some s)
        × (length s.sent ≤ 1)
        × All (ArrivesMined g now b) s.sent
  mine_block_arrives C fuel clock b g now fits small =
      let (s, e, few, h) = mine_block-IsPacketFor C fuel clock b fits small in
      (s, e, few, All-arrives g now b s.sent h)
