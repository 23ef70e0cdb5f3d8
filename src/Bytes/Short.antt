-- ===== src/Bytes/Short.antt =====
-- Readers on memory that is too short for them.
use dave_coin.Base.{ℕ, ◌+◌, ◌≤◌, ◌<◌, ◌≡◌, ◌⊎◌, refl, length, drop, arith, inl, inr, Option-cases}
use dave_coin.Bytes.{Bytes, ok, fault, Reader, ◌>>=◌, load, load_bytes, from_le, front}
use dave_coin.Bytes.Ensures.{Bounded-load, Bounded-load_bytes}

-- From a cursor inside the memory, or at its end, `m` takes at least `n` bytes, or it reads outside.
pub record Takes {ℓ} {A : Type ℓ} (n : ℕ) (m : Reader A) : Type ℓ where
  pub takes :
      (mem : Bytes) (cr : ℕ)
      → cr ≤ length mem
      → (m mem cr ≡ fault)
        ⊎ ((a : A) × (cr' : ℕ) × (m mem cr ≡ ok (a, cr')) × (cr + n ≤ cr') × (cr' ≤ length mem))

-- If fewer than `n` bytes are left then `m` reads outside.
pub record ShortFaults {ℓ} {A : Type ℓ} (n : ℕ) (m : Reader A) : Type ℓ where
  pub faults : (mem : Bytes) (cr : ℕ) → cr ≤ length mem → length mem < cr + n → m mem cr ≡ fault

pub ShortFaults-zero {ℓ} : {A : Type ℓ} (m : Reader A) → ShortFaults 0 m
ShortFaults-zero m = record { faults = λ mem cr h short. absurd (omega arith) }

pub ShortFaults-bind {ℓ κ} :
    {A : Type ℓ} {B : Type κ} {n k : ℕ} {m : Reader A} {f : A → Reader B}
    → Takes n m
    → ((a : A) → ShortFaults k (f a))
    → ShortFaults (n + k) (m >>= f)
unfolding ◌>>=◌
ShortFaults-bind {m = m} {f = f} hm hf = record {
  faults = λ mem cr h short. elim (hm.takes mem cr h) [
    | inl e ↦ rw e refl
    | inr (a, cr', e, far, inside) ↦ rw e ((hf a).faults mem cr' inside (omega arith))
  ];
}

pub Takes-load : (w : ℕ) → Takes w (load w)
unfolding load
Takes-load w = record {
  takes = λ mem cr h. elim (Option-cases (from_le w (drop cr mem))) [
    | inl e ↦ inl (rw e refl)
    | inr (n, e) ↦
        let e' : load w mem cr ≡ ok (n, cr + w) = rw e refl in
        inr (n, cr + w, e', omega arith, ((Bounded-load w).bounded mem cr n (cr + w) h e').1)
  ];
}

pub Takes-load_bytes : (n : ℕ) → Takes 0 (load_bytes n)
unfolding load_bytes
Takes-load_bytes n = record {
  takes = λ mem cr h. elim (Option-cases (front n (drop cr mem))) [
    | inl e ↦ inl (rw e refl)
    | inr (bs, e) ↦
        let e' : load_bytes n mem cr ≡ ok (bs, cr + n) = rw e refl in
        let (lo, hi) = (Bounded-load_bytes n).bounded mem cr bs (cr + n) h e' in
        inr (bs, cr + n, e', omega (arith, lo), hi)
  ];
}
