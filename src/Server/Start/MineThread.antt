-- ===== src/Server/Start/MineThread.antt =====
-- The mining thread, from the generation of its keys to the clients that receive the block.
use dave_coin.Base.{
  ℕ, suc, ◌<◌, ◌≤◌, ◌^◌, ◌≡◌, refl, ap, ◌∙◌, List, [], ◌∷◌, All, some, arith, length,
}
use dave_coin.Block.{Block, Garbage, new_block}
use dave_coin.Block.Fits.{BlockFits, ReadableTx}
use dave_coin.Bytes.{ok}
use dave_coin.Client.{receive_message}
use dave_coin.Client.Messages.{receive_message-mined_block}
use dave_coin.Crypto.{Crypto, Laws, Dsa}
use dave_coin.Keys.{generate_keys}
use dave_coin.Miner.Arrival.{IsPacketFor, ArrivesMined, arrives, mine_block-IsPacketFor}
use dave_coin.Node.{Node, NServer, print, client_block}
use dave_coin.Packet.{EncodedPacket}
use dave_coin.Server.Start.{random_block, send_all, mine_thread}
use dave_coin.Tcp.{Tcp}

module _ ⦃t : Tcp⦄ ⦃c : Crypto⦄ where
  -- What becomes of a packet `p` at any client `node`: it holds a mined block with the coinbase and
  -- predecessor of `b`, and the client prints that it got one.
  abbrev pub IsReceived : Garbage → ℕ → Block c.PublicKey → Node → EncodedPacket t.Client → Type 0
  IsReceived g now b node p =
      ArrivesMined g now b p × (receive_message g now p.serial node ≡ ok (print client_block node))

  random_block-BlockFits :
      (g : Garbage) (now : ℕ) (public_key : c.PublicKey)
      → now < 2 ^ 64
      → BlockFits (random_block g now public_key)
  unfolding random_block new_block
  random_block-BlockFits g now public_key early = record {
    index_fits = omega arith;
    bit_thresh_fits = omega arith;
    prev_hash_fits = omega arith;
    nonce_fits = omega arith;
    timestamp_fits = early;
    coins_fits = omega arith;
    tx_count = omega arith;
    tx_fit = tt;
  }

  random_block-ReadableTx :
      (g : Garbage) (now : ℕ) (public_key : c.PublicKey)
      → ReadableTx (random_block g now public_key).tx
  unfolding random_block new_block
  random_block-ReadableTx g now public_key = tt

module _ ⦃t : Tcp⦄ ⦃c : Crypto⦄ (laws : Laws) where
  IsPacketFor-IsReceived :
      (g : Garbage) (now : ℕ) (b : Block c.PublicKey) (node : Node) (p : EncodedPacket t.Client)
      → IsPacketFor b p
      → IsReceived g now b node p
  IsPacketFor-IsReceived g now b node p h = (
    arrives laws g now b p h,
    ap (λ (q : EncodedPacket t.Client). receive_message g now q.serial node) h.is_packet
        ∙ receive_message-mined_block laws g now h.block node h.fits h.readable,
  )

  All-IsReceived :
      (g : Garbage) (now : ℕ) (b : Block c.PublicKey) (node : Node)
      (ps : List (EncodedPacket t.Client))
      → All (IsPacketFor b) ps
      → All (IsReceived g now b node) ps
  All-IsReceived g now b node [] h = tt
  All-IsReceived g now b node (p ∷ ps) (h, hs) =
      (IsPacketFor-IsReceived g now b node p h, All-IsReceived g now b node ps hs)

  -- With keys that `GenerateKeys` makes, and a clock within 64 bits, the mining thread ends, having made
  -- at most one call of `SendMessageToAllClients`. At a client that receives this packet it holds a block
  -- that counts as mined and pays 100 coins to the generated key, and the client prints that it got it.
  pub mine_thread_lem :
      (d : Dsa) (rng rng1 rng2 : ℕ) (g : Garbage) (now fuel : ℕ) (clock : ℕ → ℕ) (s : NServer)
      (g' : Garbage) (now' : ℕ) (node : Node) {public_key : c.PublicKey}
      {private_key : c.PrivateKey}
      → generate_keys d rng rng1 rng2 ≡ ok (public_key, private_key)
      → now < 2 ^ 64
      → (sent : List (EncodedPacket t.Client)) × (mine_thread d rng rng1 rng2 g now
            (suc fuel)
            clock
            s
          ≡ ok (some (send_all sent s)))
        × (length sent ≤ 1)
        × All (IsReceived g' now' (random_block g now public_key) node) sent
        × ((random_block g now public_key).coinbase ≡ record { coins = 100; target = public_key })
  unfolding mine_thread
  mine_thread_lem d rng rng1 rng2 g now fuel clock s g' now' node {public_key} keys early =
      let b = random_block g now public_key in
      let (scan, e, few, h) =
        mine_block-IsPacketFor t.Client fuel clock b (random_block-BlockFits g now public_key early)
          (random_block-ReadableTx g now public_key) in
      (
        scan.sent,
        rw (keys, e) refl,
        few,
        All-IsReceived g' now' b node scan.sent h,
        unfold random_block in refl,
      )
