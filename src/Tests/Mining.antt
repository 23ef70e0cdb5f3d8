-- ===== src/Tests/Mining.antt =====
-- Runs of the miner on a concrete block.
use dave_coin.Base.{◌+◌, ◌↔◌, ◌++◌, true, replicate, ℕ, ◌⊎◌, ◌≡◌, some}
use dave_coin.Bytes.{Bytes}
use dave_coin.Crypto.Toy.{toy}
use dave_coin.Miner.{Scan, mine_block, is_mined, zero_char}
use dave_coin.Miner.Search.{is_mined_iff, mine_block_result, Found, GaveUp}
use dave_coin.Tests.{small_block}

mine_block_result_example :
    (s : Scan ℕ) × (mine_block 1 (λ k. 1000 + k) small_block ≡ some s)
    × (Found small_block 0 s ⊎ GaveUp small_block 0 s)
mine_block_result_example = mine_block_result ℕ 0 (λ k. 1000 + k) small_block

is_mined_iff_example :
    (is_mined small_block ≡ true)
    ↔ ((rest : Bytes) × (small_block.hash ≡ replicate small_block.bit_thresh zero_char ++ rest))
is_mined_iff_example = is_mined_iff small_block
