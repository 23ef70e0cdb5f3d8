-- ===== src/Dict/Order.antt =====
-- What makes a list of pairs a `std::map`: its keys stand in the order of `operator<`, so each of them
-- stands there once.
use dave_coin.Base.{
  ap, Bool-cases, ◌≡◌, refl, [], ◌∷◌, ◌++◌, true, false, arith, Bool-cases, inl, inr, ap, subst,
}
use dave_coin.Bytes.{Bytes}
use dave_coin.Dict.{same_bytes_refl, Dict, same_bytes, same_bytes_iff, before, insert, erase}

pub before_irrefl : (a : Bytes) → before a a ≡ false
unfolding before
before_irrefl [] = refl
before_irrefl (x ∷ xs) = ground (arith, before_irrefl xs)

before_trans : (a b d : Bytes) → before a b ≡ true → before b d ≡ true → before a d ≡ true
unfolding before
before_trans [] [] d h k = k
before_trans [] (y ∷ ys) [] h k = k
before_trans [] (y ∷ ys) (z ∷ zs) h k = refl
before_trans (x ∷ xs) [] d h k = cc
before_trans (x ∷ xs) (y ∷ ys) [] h k = k
before_trans (x ∷ xs) (y ∷ ys) (z ∷ zs) h k = ground (arith, before_trans xs ys zs)

pub before_asym : (a b : Bytes) → before a b ≡ true → before b a ≡ false
before_asym a b h = elim (Bool-cases (before b a)) [
  | inl y ↦ absurd (ground (arith, before_trans a b a h y, before_irrefl a))
  | inr n ↦ n
]

pub before_total : (a b : Bytes) → same_bytes a b ≡ false → before a b ≡ false → before b a ≡ true
unfolding before same_bytes
before_total [] [] h k = cc
before_total [] (y ∷ ys) h k = cc
before_total (x ∷ xs) [] h k = refl
before_total (x ∷ xs) (y ∷ ys) h k = ground (arith, before_total xs ys)

pub same_bytes_flip : (a b : Bytes) → same_bytes a b ≡ false → same_bytes b a ≡ false
same_bytes_flip a b h = ground (arith, same_bytes_iff a b, same_bytes_iff b a, h)

pub before-same_bytes : (a b : Bytes) → before a b ≡ true → same_bytes a b ≡ false
unfolding before same_bytes
before-same_bytes [] [] h = cc
before-same_bytes [] (y ∷ ys) h = refl
before-same_bytes (x ∷ xs) [] h = refl
before-same_bytes (x ∷ xs) (y ∷ ys) h = ground (arith, before-same_bytes xs ys)

module _ {ℓ} {V : Type ℓ} where
  -- Every key of the map is behind `k`.
  abbrev pub IsBehind : Bytes → Dict V → Type 0
  IsBehind k [] = Unit
  IsBehind k ((j, v) ∷ m) = (before k j ≡ true) × IsBehind k m

  abbrev pub IsSorted : Dict V → Type 0
  IsSorted [] = Unit
  IsSorted ((k, v) ∷ m) = IsBehind k m × IsSorted m

  pub IsBehind-trans : (i k : Bytes) (m : Dict V) → before i k ≡ true → IsBehind k m → IsBehind i m
  IsBehind-trans i k [] b h = tt
  IsBehind-trans i k ((j, v) ∷ m) b (h, hs) = (before_trans i k j b h, IsBehind-trans i k m b hs)

  insert-IsBehind :
      (i k : Bytes) (v : V) (m : Dict V)
      → before i k ≡ true
      → IsBehind i m
      → IsBehind i (insert k v m)
  unfolding insert
  insert-IsBehind i k v [] b h = (b, tt)
  insert-IsBehind i k v ((j, w) ∷ m) b (h, hs) = elim (Bool-cases (same_bytes j k)) [
    | inl y ↦ rw y (b, hs)
    | inr n ↦ elim (Bool-cases (before k j)) [
      | inl y' ↦ rw (n, y') (b, (h, hs))
      | inr n' ↦ rw (n, n') (h, insert-IsBehind i k v m b hs)
    ]
  ]

  pub insert-IsSorted : (k : Bytes) (v : V) (m : Dict V) → IsSorted m → IsSorted (insert k v m)
  unfolding insert
  insert-IsSorted k v [] h = (tt, tt)
  insert-IsSorted k v ((j, w) ∷ m) (h, hs) = elim (Bool-cases (same_bytes j k)) [
    | inl y ↦ rw y (subst (λ i. IsBehind i m) ((same_bytes_iff j k).0 y) h, hs)
    | inr n ↦ elim (Bool-cases (before k j)) [
      | inl y' ↦ rw (n, y') ((y', IsBehind-trans k j m y' h), (h, hs))
      | inr n' ↦
          let first : before j k ≡ true = before_total k j (same_bytes_flip j k n) n' in
          rw (n, n') (insert-IsBehind j k v m first h, insert-IsSorted k v m hs)
    ]
  ]

  -- A key that is not there is not erased.
  pub erase-IsBehind : (k : Bytes) (m : Dict V) → IsBehind k m → erase k m ≡ m
  unfolding erase
  erase-IsBehind k [] h = refl
  erase-IsBehind k ((j, w) ∷ m) (h, hs) =
      rw (same_bytes_flip k j (before-same_bytes k j h))
        (ap (λ r. (j, w) ∷ r) (erase-IsBehind k m hs))

  pub IsBehind-middle :
      (j k : Bytes) (v : V) (l m : Dict V) → IsBehind j (l ++ (k, v) ∷ m) → before j k ≡ true
  IsBehind-middle j k v [] m h = h.0
  IsBehind-middle j k v ((i, w) ∷ l) m h = IsBehind-middle j k v l m (h.1)

  -- The entry of a key that stands in the middle is all that is erased.
  pub erase-middle :
      (k : Bytes) (v : V) (l m : Dict V)
      → IsSorted (l ++ (k, v) ∷ m)
      → erase k (l ++ (k, v) ∷ m) ≡ l ++ m
  unfolding erase
  erase-middle k v [] m (h, hs) = rw (same_bytes_refl k) (erase-IsBehind k m h)
  erase-middle k v ((j, w) ∷ l) m (h, hs) =
      let other : same_bytes j k ≡ false = before-same_bytes j k (IsBehind-middle j k v l m h) in
      rw other (ap (λ r. (j, w) ∷ r) (erase-middle k v l m hs))

  IsBehind-without :
      (j k : Bytes) (v : V) (l m : Dict V) → IsBehind j (l ++ (k, v) ∷ m) → IsBehind j (l ++ m)
  IsBehind-without j k v [] m h = h.1
  IsBehind-without j k v ((i, w) ∷ l) m (h, hs) = (h, IsBehind-without j k v l m hs)

  pub IsSorted-without :
      (k : Bytes) (v : V) (l m : Dict V) → IsSorted (l ++ (k, v) ∷ m) → IsSorted (l ++ m)
  IsSorted-without k v [] m h = h.1
  IsSorted-without k v ((j, w) ∷ l) m (h, hs) =
      (IsBehind-without j k v l m h, IsSorted-without k v l m hs)

  erase-keeps-IsBehind : (i k : Bytes) (m : Dict V) → IsBehind i m → IsBehind i (erase k m)
  unfolding erase
  erase-keeps-IsBehind i k [] h = tt
  erase-keeps-IsBehind i k ((j, w) ∷ m) (h, hs) = elim (Bool-cases (same_bytes j k)) [
    | inl y ↦ rw y (erase-keeps-IsBehind i k m hs)
    | inr n ↦ rw n (h, erase-keeps-IsBehind i k m hs)
  ]

  pub erase-IsSorted : (k : Bytes) (m : Dict V) → IsSorted m → IsSorted (erase k m)
  unfolding erase
  erase-IsSorted k [] h = tt
  erase-IsSorted k ((j, w) ∷ m) (h, hs) = elim (Bool-cases (same_bytes j k)) [
    | inl y ↦ rw y (erase-IsSorted k m hs)
    | inr n ↦ rw n (erase-keeps-IsBehind j k m h, erase-IsSorted k m hs)
  ]
