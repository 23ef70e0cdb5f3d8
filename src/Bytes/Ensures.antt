-- ===== src/Bytes/Ensures.antt =====
-- What a reader's results satisfy on any memory, well formed or not: a postcondition on the value, and
-- bounds on the cursor.
use dave_coin.Base.{
  length-drop, ap, subst, ℕ, zero, suc, ◌≤◌, ◌≡◌, refl, [], ◌∷◌, some, arith, length, drop, inl,
  inr, Option-cases,
}
use dave_coin.Bytes.{
  Bytes, from_le, front, Outcome, ok, throws, fault, Reader, return, ◌>>=◌, after, load, load_bytes,
  many, run, result, c_str,
}

-- If `m` returns then its value satisfies `P`.
pub record Ensures {ℓ κ} {A : Type ℓ} (m : Reader A) (P : A → Type κ) : Type (ℓ ⊔ κ) where
  pub ensures : (mem : Bytes) (cr : ℕ) (a : A) (cr' : ℕ) → m mem cr ≡ ok (a, cr') → P a

-- A cursor inside the memory, or at its end, moves forward and stays so.
pub record Bounded {ℓ} {A : Type ℓ} (m : Reader A) : Type ℓ where
  pub bounded :
      (mem : Bytes) (cr : ℕ) (a : A) (cr' : ℕ)
      → cr ≤ length mem
      → m mem cr ≡ ok (a, cr')
      → (cr ≤ cr') × (cr' ≤ length mem)

after-ok {ℓ κ} :
    {A : Type ℓ} {B : Type κ} (f : A → Reader B) (mem : Bytes) (r : Outcome (A × ℕ)) {q : B × ℕ}
    → after f mem r ≡ ok q
    → (a : A) × (cr : ℕ) × (r ≡ ok (a, cr)) × (f a mem cr ≡ ok q)
after-ok f mem (ok (a, cr)) e = (a, cr, refl, e)
after-ok f mem (throws x) e = cc
after-ok f mem fault e = cc

result-ok {ℓ} :
    {A : Type ℓ} (r : Outcome (A × ℕ)) {a : A} → result r ≡ ok a → (cr : ℕ) × (r ≡ ok (a, cr))
result-ok (ok (b, cr)) e = (cr, ap (λ x. ok (x, cr)) (cc e))
result-ok (throws x) e = cc
result-ok fault e = cc

module _ {ℓ κ μ} {A : Type ℓ} {B : Type κ} {P : B → Type μ} where
  pub Ensures-bind :
      (m : Reader A) (f : A → Reader B) → ((a : A) → Ensures (f a) P) → Ensures (m >>= f) P
  unfolding ◌>>=◌
  Ensures-bind m f h = record {
    ensures = λ mem cr b cr' e.
        let (a, mid, _, e') = after-ok f mem (m mem cr) e in (h a).ensures mem mid b cr' e';
  }

pub Ensures-return {ℓ κ} : {A : Type ℓ} {P : A → Type κ} (a : A) → P a → Ensures (return a) P
unfolding return
Ensures-return {P = P} a p = record { ensures = λ mem cr b cr' e. subst P (cc e) p }

pub Bounded-bind {ℓ κ} :
    {A : Type ℓ} {B : Type κ} {m : Reader A} {f : A → Reader B}
    → Bounded m
    → ((a : A) → Bounded (f a))
    → Bounded (m >>= f)
unfolding ◌>>=◌
Bounded-bind {m = m} {f = f} hm hf = record {
  bounded = λ mem cr b cr' h e.
      let (a, mid, e₁, e₂) = after-ok f mem (m mem cr) e in
      let (lo, hi) = hm.bounded mem cr a mid h e₁ in
      let (lo', hi') = (hf a).bounded mem mid b cr' hi e₂ in (omega arith, omega arith);
}

pub Bounded-return {ℓ} : {A : Type ℓ} (a : A) → Bounded (return a)
unfolding return
Bounded-return a = record { bounded = λ mem cr b cr' h e. ground arith }

from_le-le : (w : ℕ) (bs : Bytes) {n : ℕ} → from_le w bs ≡ some n → w ≤ length bs
unfolding from_le
from_le-le zero bs e = omega arith
from_le-le (suc w) [] e = cc
from_le-le (suc w) (b ∷ bs) e = elim (Option-cases (from_le w bs)) [
  | inl x ↦ cc (rw x at e)
  | inr (m, x) ↦ omega (arith, from_le-le w bs x)
]

front-le : (n : ℕ) (bs : Bytes) {cs : Bytes} → front n bs ≡ some cs → n ≤ length bs
unfolding front
front-le zero bs e = omega arith
front-le (suc n) [] e = cc
front-le (suc n) (b ∷ bs) e = elim (Option-cases (front n bs)) [
  | inl x ↦ cc (rw x at e)
  | inr (m, x) ↦ omega (arith, front-le n bs x)
]

pub Bounded-load : (w : ℕ) → Bounded (load w)
unfolding load
Bounded-load w = record {
  bounded = λ mem cr n cr' h e. elim (Option-cases (from_le w (drop cr mem))) [
    | inl x ↦ cc (rw x at e)
    | inr (m, x) ↦ ground (arith, from_le-le w (drop cr mem) x, length-drop cr mem, x, e)
  ];
}

pub Bounded-load_bytes : (n : ℕ) → Bounded (load_bytes n)
unfolding load_bytes
Bounded-load_bytes n = record {
  bounded = λ mem cr bs cr' h e. elim (Option-cases (front n (drop cr mem))) [
    | inl x ↦ cc (rw x at e)
    | inr (m, x) ↦ ground (arith, front-le n (drop cr mem) x, length-drop cr mem, x, e)
  ];
}

pub Bounded-many {ℓ} : {A : Type ℓ} {m : Reader A} (n : ℕ) → Bounded m → Bounded (many m n)
unfolding many
Bounded-many zero h = Bounded-return []
Bounded-many (suc n) h =
    Bounded-bind h (λ a. Bounded-bind (Bounded-many n h) (λ rest. Bounded-return (a ∷ rest)))

pub Ensures-run {ℓ κ} :
    {A : Type ℓ} {P : A → Type κ} {m : Reader A} (serial : Bytes) {a : A}
    → Ensures m P
    → run m serial ≡ ok a
    → P a
unfolding run
Ensures-run {m = m} serial {a} h e =
    let (cr, e') = result-ok (m (c_str serial) 0) e in h.ensures (c_str serial) 0 a cr e'
