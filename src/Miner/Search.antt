-- ===== src/Miner/Search.antt =====
-- What `MineBlock` does, and that it ends.
use dave_coin.Base.{
  subst, ltb→lt, length-append, length-replicate, ℕ, zero, suc, ◌+◌, ◌-◌, ◌%◌, ◌≤◌, ◌<◌, ◌≡◌, refl,
  ap, ◌↔◌, ◌⊎◌, inl, inr, [], ◌∷◌, ◌++◌, true, false, some, arith, length, ltb, ◌==◌, Bool-cases,
  replicate,
}
use dave_coin.Bytes.{Bytes}
use dave_coin.Crypto.{Crypto}
use dave_coin.Block
use dave_coin.Block.{Block, hash_block}
use dave_coin.Packet.{serialize_mined_block}
use dave_coin.Miner.{
  zero_char, zero_chars, uint32_max, check_every, is_mined, Scan, scan, mine_loop, mine_block,
}

zero_chars_iff :
    (n : ℕ) (h : Bytes)
    → (zero_chars n h ≡ true) ↔ ((rest : Bytes) × (h ≡ replicate n zero_char ++ rest))
unfolding zero_chars
zero_chars_iff zero h = (λ e. (h, refl), λ r. refl)
zero_chars_iff (suc n) [] = (λ e. cc, λ (rest, e). cc)
zero_chars_iff (suc n) (b ∷ h) = (
  λ e. let (rest, eh) = (zero_chars_iff n h).0 (ground arith) in (rest, ground (arith, eh)),
  λ (rest, e). let ih = (zero_chars_iff n h).1 (rest, ground (arith, e)) in ground (arith, e, ih),
)

module _ ⦃c : Crypto⦄ where
  -- A block counts as mined exactly when its hash starts with `bit_thresh` characters '0'.
  pub is_mined_iff :
      (b : Block c.PublicKey)
      → (is_mined b ≡ true) ↔ ((rest : Bytes) × (b.hash ≡ replicate b.bit_thresh zero_char ++ rest))
  unfolding is_mined
  is_mined_iff b = elim (Bool-cases (ltb (length b.hash) b.bit_thresh)) [
    | inl short ↦ (
      λ e. cc (rw short at e),
      λ (rest, e). absurd (
          omega (
            arith,
            ltb→lt _ _ short,
            ap length e,
            length-replicate b.bit_thresh zero_char,
            length-append (replicate b.bit_thresh zero_char) rest,
          )),
    )
    | inr long ↦ rw long (zero_chars_iff b.bit_thresh b.hash)
  ]

  -- The block at a nonce, with the hash that goes with it.
  unfoldable pub candidate : Block c.PublicKey → ℕ → Block c.PublicKey
  candidate b n = hash_block (record b { nonce = n })

  -- From nonce `k` on: a first nonce below the limit that is mined, or none.
  abbrev pub Found : {C : Type 0} → Block c.PublicKey → ℕ → Scan C → Type 0
  Found {C} b k s =
      (n : ℕ) × (k ≤ n)
      × (n < check_every)
      × ((m : ℕ) → k ≤ m → m < n → is_mined (candidate b m) ≡ false)
      × (is_mined (candidate b n) ≡ true)
      × (s ≡ record {
        block = candidate b n;
        attempts = n;
        good = true;
        sent = serialize_mined_block (candidate b n) ∷ [];
      })

  abbrev pub GaveUp : {C : Type 0} → Block c.PublicKey → ℕ → Scan C → Type 0
  GaveUp b k s =
      ((m : ℕ) → k ≤ m → m < check_every → is_mined (candidate b m) ≡ false)
      × (s ≡ record {
        block = candidate b (check_every - 1);
        attempts = check_every;
        good = true;
        sent = [];
      })

  -- One step of the loop at nonce `k`, whatever hash the block had.
  hash-candidate :
      (b : Block c.PublicKey) (h : Bytes) (k : ℕ)
      → hash_block (record b { nonce = k; hash = h }) ≡ candidate b k
  unfolding candidate hash_block Block.serialize
  hash-candidate b h k = refl

  next-candidate :
      (b : Block c.PublicKey) (k : ℕ)
      → record (candidate b k) { nonce = (candidate b k).nonce + 1 }
        ≡ record b { nonce = k + 1; hash = (candidate b k).hash }
  unfolding candidate hash_block
  next-candidate b k = refl

  -- No candidate from `k` on, below `n`, is mined.
  abbrev NoneMined : Block c.PublicKey → ℕ → ℕ → Type 0
  NoneMined b k n = (m : ℕ) → k ≤ m → m < n → is_mined (candidate b m) ≡ false

  none_from :
      (b : Block c.PublicKey) (k n : ℕ)
      → is_mined (candidate b k) ≡ false
      → NoneMined b (k + 1) n
      → NoneMined b k n
  none_from b k n now later m p q = elim (Bool-cases (k == m)) [
    | inl same ↦ let e : k ≡ m = ground arith in subst (λ j. is_mined (candidate b j) ≡ false) e now
    | inr other ↦ later m (ground arith) q
  ]

  extend :
      {C : Type 0} (b : Block c.PublicKey) (k : ℕ) (s : Scan C)
      → is_mined (candidate b k) ≡ false
      → Found b (k + 1) s ⊎ GaveUp b (k + 1) s
      → Found b k s ⊎ GaveUp b k s
  extend b k s now (inl (n, le, lt, others, mined, e)) =
      inl (n, omega arith, lt, none_from b k n now others, mined, e)
  extend b k s now (inr (others, e)) = inr (none_from b k check_every now others, e)

  scan_lem :
      (C : Type 0) (left : ℕ) (b : Block c.PublicKey) (h : Bytes) (k : ℕ)
      → k < check_every
      → check_every ≤ k + left
      → Found {C = C} b k (scan left (record b { nonce = k; hash = h }) k)
        ⊎ GaveUp {C = C} b k (scan left (record b { nonce = k; hash = h }) k)
  unfolding scan
  scan_lem C zero b h k lt le = absurd (omega arith)
  scan_lem C (suc left) b h k lt le =
      rw (hash-candidate b h k) (elim (Bool-cases (is_mined (candidate b k))) [
        | inl mined ↦ inl (k, omega arith, lt, λ m p q. absurd (omega arith), mined, rw mined refl)
        | inr not ↦ elim (Bool-cases ((k + 1) % check_every == 0)) [
          | inl last ↦
              let e : k ≡ check_every - 1 = ground arith in
              inr (
                none_from b k check_every not (λ m p q. absurd (omega arith)),
                rw (not, last)
                    (ap
                      (λ n. record {
                        block = candidate b n;
                        attempts = n + 1;
                        good = true;
                        sent = [];
                      })
                      e),
              )
          | inr more ↦ extend b k _ not (
              rw (not, more, next-candidate b k)
                (scan_lem C left b (candidate b k).hash (k + 1) (ground arith) (omega arith)))
        ]
      ])

  ends :
      (C : Type 0) (b : Block c.PublicKey) (k : ℕ) (s : Scan C)
      → Found b k s ⊎ GaveUp b k s
      → s.good ≡ true
  ends C b k s (inl (n, _, _, _, _, e)) = ap (λ (t : Scan C). t.good) e
  ends C b k s (inr (_, e)) = ap (λ (t : Scan C). t.good) e

  mine_loop-good :
      (C : Type 0) (fuel : ℕ) (clock : ℕ → ℕ) (b : Block c.PublicKey) (attempts : ℕ)
      → (scan {C = C} uint32_max (record b { nonce = 0 }) attempts).good ≡ true
      → mine_loop (suc fuel) clock b attempts
        ≡ some (scan {C = C} uint32_max (record b { nonce = 0 }) attempts)
  unfolding mine_loop
  mine_loop-good C fuel clock b attempts h = rw h refl

  -- `MineBlock` ends in the first round of its outer loop, whatever the clock says, with one of two
  -- results. Either some nonce below 10000 is the first whose hash is mined: the block has that nonce
  -- and hash, and its packet was sent to all clients once. Or no nonce below 10000 is mined: nothing was
  -- sent, and the block is left at nonce 9999. All else of the block, its timestamp too, is as it was.
  pub mine_block_result :
      (C : Type 0) (fuel : ℕ) (clock : ℕ → ℕ) (b : Block c.PublicKey)
      → (s : Scan C) × (mine_block (suc fuel) clock b ≡ some s) × (Found b 0 s ⊎ GaveUp b 0 s)
  unfolding mine_block
  mine_block_result C fuel clock b =
      let r = scan_lem C uint32_max b b.hash 0 (omega arith) (omega arith) in
      (
        scan uint32_max (record b { nonce = 0 }) 0,
        mine_loop-good C fuel clock b 0 (ends C b 0 _ r),
        r,
      )
