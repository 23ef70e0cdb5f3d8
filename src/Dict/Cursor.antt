-- ===== src/Dict/Cursor.antt =====
-- An iterator of a `std::map`, by the key of the entry that it is at: `none` is `end()`. Entries that are
-- inserted elsewhere, or erased, leave it where it is.
use dave_coin.Base.{
  refl, ◌++◌, ◌≡◌, subst, [], ◌∷◌, true, false, Option, none, some, arith, if◌then◌else◌,
  Bool-cases, inl, inr,
}
use dave_coin.Bytes.{Bytes}
use dave_coin.Dict.{same_bytes_refl, Dict, same_bytes, same_bytes_iff, before, lookup}
use dave_coin.Dict.Order.{
  before-same_bytes, IsBehind-middle, IsSorted, IsBehind, before_asym, before_irrefl,
}

-- The iterator has not passed `ip` yet.
abbrev pub IsAhead : Bytes → Option Bytes → Type 0
IsAhead ip none = ⊥
IsAhead ip (some k) = before ip k ≡ false

module _ {ℓ} {V : Type ℓ} where
  -- `begin()`.
  abbrev pub first_key : Dict V → Option Bytes
  first_key [] = none
  first_key ((k, v) ∷ m) = some k

  -- `i++` at the key `k`.
  unfoldable pub next_key : Bytes → Dict V → Option Bytes
  next_key k [] = none
  next_key k ((j, v) ∷ m) = let rest = next_key k m in if before k j then some j else rest

  not_there : {v : V} → ¬ (none ≡ some v)
  not_there e = cc

  -- A key of a map that is behind `k`.
  lookup-first :
      (ip k : Bytes) (v : V) (m : Dict V) → IsBehind k m → lookup ip m ≡ some v → before k ip ≡ true
  unfolding lookup
  lookup-first ip k v [] h there = absurd (not_there there)
  lookup-first ip k v ((j, w) ∷ m) (h, hs) there = elim (Bool-cases (same_bytes j ip)) [
    | inl y ↦ subst (λ i. before k i ≡ true) ((same_bytes_iff j ip).0 y) h
    | inr n ↦ lookup-first ip k v m hs (rw n at there)
  ]

  pub first_key-IsAhead :
      (ip : Bytes) (v : V) (m : Dict V)
      → IsSorted m
      → lookup ip m ≡ some v
      → IsAhead ip (first_key m)
  unfolding lookup
  first_key-IsAhead ip v [] h there = absurd (not_there there)
  first_key-IsAhead ip v ((j, w) ∷ m) (h, hs) there = elim (Bool-cases (same_bytes j ip)) [
    | inl y ↦ subst (λ i. before i j ≡ false) ((same_bytes_iff j ip).0 y) (before_irrefl j)
    | inr n ↦ before_asym j ip (lookup-first ip j v m h (rw n at there))
  ]

  pub next_key-IsAhead :
      (ip k : Bytes) (v : V) (m : Dict V)
      → IsSorted m
      → before k ip ≡ true
      → lookup ip m ≡ some v
      → IsAhead ip (next_key k m)
  unfolding lookup next_key
  next_key-IsAhead ip k v [] h b there = absurd (not_there there)
  next_key-IsAhead ip k v ((j, w) ∷ m) (h, hs) b there = elim (Bool-cases (before k j)) [
    | inl y ↦ rw y (first_key-IsAhead ip v ((j, w) ∷ m) (h, hs) there)
    | inr n ↦
        let other : same_bytes j ip ≡ false = ground (arith, same_bytes_iff j ip, b, n) in
        rw n (next_key-IsAhead ip k v m hs b (rw other at there))
  ]

  pub lookup-middle :
      (k : Bytes) (v : V) (l m : Dict V)
      → IsSorted (l ++ (k, v) ∷ m)
      → lookup k (l ++ (k, v) ∷ m) ≡ some v
  unfolding lookup
  lookup-middle k v [] m h = rw (same_bytes_refl k) refl
  lookup-middle k v ((j, w) ∷ l) m (h, hs) =
      rw (before-same_bytes j k (IsBehind-middle j k v l m h)) (lookup-middle k v l m hs)

  next_key-IsBehind : (k : Bytes) (m : Dict V) → IsBehind k m → next_key k m ≡ first_key m
  unfolding next_key
  next_key-IsBehind k [] h = refl
  next_key-IsBehind k ((j, v) ∷ m) (h, hs) = rw h refl

  pub next_key-middle :
      (k : Bytes) (v : V) (l m : Dict V)
      → IsSorted (l ++ (k, v) ∷ m)
      → next_key k (l ++ (k, v) ∷ m) ≡ first_key m
  unfolding next_key
  next_key-middle k v [] m (h, hs) = rw (before_irrefl k) (next_key-IsBehind k m h)
  next_key-middle k v ((j, w) ∷ l) m (h, hs) =
      rw (before_asym j k (IsBehind-middle j k v l m h)) (next_key-middle k v l m hs)
