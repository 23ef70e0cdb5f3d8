-- ===== src/Bytes/Reads.antt =====
-- Which bytes a reader takes and what it makes of them, whatever stands before and after: the rules
-- by which each decoder's round trip is put together from those of its fields.
use native.Mathlib.Nat.{pow-succ'}
use dave_coin.Base.{
  ◌≤◌, none, ℕ, zero, suc, ◌+◌, ◌/◌, ◌^◌, ◌<◌, ◌≡◌, ◌≢◌, refl, ap, ◌∙◌, List, [], ◌∷◌, ◌++◌, some,
  arith, length, All, flatten, map, length-append, drop-append, append_assoc, append-nil,
}
use dave_coin.Bytes.{
  Bytes, to_le, from_le, front, ok, Reader, return, ◌>>=◌, load, load_bytes, many, run, throws,
  fault, Outcome, result, Error,
}

-- What a call leaves: its value with the cursor at `cr`, or its failure.
abbrev pub settle {ℓ} : {A : Type ℓ} → ℕ → Outcome A → Outcome (A × ℕ)
settle cr (ok a) = ok (a, cr)
settle cr (throws e) = throws e
settle cr fault = fault

-- Started at the bytes `bs`, wherever they lie in memory, `m` ends as `r`, and if it returns then it
-- has taken exactly `bs`.
pub record Runs {ℓ} {A : Type ℓ} (m : Reader A) (bs : Bytes) (r : Outcome A) : Type ℓ where
  pub runs :
      (pre post : Bytes) → m (pre ++ (bs ++ post)) (length pre) ≡ settle (length pre + length bs) r

abbrev pub map_ok {ℓ κ} : {A : Type ℓ} {B : Type κ} → (A → B) → Outcome A → Outcome B
map_ok f (ok a) = ok (f a)
map_ok f (throws e) = throws e
map_ok f fault = fault

abbrev pub Reads {ℓ} : {A : Type ℓ} → Reader A → Bytes → A → Type ℓ
Reads m bs a = Runs m bs (ok a)

module _ {ℓ} {A : Type ℓ} where
  pub Reads-return : (a : A) → Reads (return a) [] a
  unfolding return
  Reads-return a = record { runs = λ pre post. ap (λ n. ok (a, n)) (omega arith) }

  result-settle : (r : Outcome A) (cr : ℕ) → result (settle cr r) ≡ r
  result-settle (ok a) cr = refl
  result-settle (throws e) cr = refl
  result-settle fault cr = refl

  settle-fails : (cr cr' : ℕ) (r : Outcome A) → ((a : A) → r ≢ ok a) → settle cr r ≡ settle cr' r
  settle-fails cr cr' (ok a) h = absurd (h a refl)
  settle-fails cr cr' (throws e) h = refl
  settle-fails cr cr' fault h = refl

  -- Bytes behind what a reader takes do not matter.
  pub run-append :
      {m : Reader A} {r : Outcome A} {bs : Bytes} (rest : Bytes)
      → Runs m bs r
      → run m (bs ++ rest) ≡ r
  unfolding run
  run-append {r = r} {bs = bs} rest h =
      rw (append_assoc bs rest (0 ∷ []), h.runs [] (rest ++ 0 ∷ [])) (result-settle r _)

  -- Nor do they matter to a reader that fails.
  pub Runs-append :
      {m : Reader A} {r : Outcome A} {xs : Bytes} (ys : Bytes)
      → ((a : A) → r ≢ ok a)
      → Runs m xs r
      → Runs m (xs ++ ys) r
  Runs-append {r = r} {xs = xs} ys fails h = record {
    runs = λ pre post.
        rw (append_assoc xs ys post) (h.runs pre (ys ++ post) ∙ settle-fails _ _ r fails);
  }

module _ {ℓ κ} {A : Type ℓ} {B : Type κ} {m : Reader A} {xs : Bytes} where
  infixr 20 ◌reads⟨◌⟩◌
  pub ◌reads⟨◌⟩◌ :
      {a : A} {r : Outcome B} {ys : Bytes}
      → Reads m xs a
      → (f : A → Reader B) → Runs (f a) ys r
      → Runs (m >>= f) (xs ++ ys) r
  unfolding ◌>>=◌
  ◌reads⟨◌⟩◌ {a} {r} {ys} hm f hf = record {
    runs = λ pre post.
        rw (append_assoc xs ys post, hm.runs pre (ys ++ post))
          (rw (← append_assoc pre xs (ys ++ post), ← length-append pre xs)
            (hf.runs (pre ++ xs) post
              ∙ ap (λ n. settle n r) (omega (arith, length-append pre xs, length-append xs ys))));
  }

  pub Throws-bind :
      {e : Error} (f : A → Reader B) → Runs m xs (throws e) → Runs (m >>= f) xs (throws e)
  unfolding ◌>>=◌
  Throws-bind f h = record { runs = λ pre post. rw (h.runs pre post) }

  pub Fault-bind : (f : A → Reader B) → Runs m xs fault → Runs (m >>= f) xs fault
  unfolding ◌>>=◌
  Fault-bind f h = record { runs = λ pre post. rw (h.runs pre post) }

pub length-to_le : (w n : ℕ) → length (to_le w n) ≡ w
unfolding to_le
length-to_le zero n = refl
length-to_le (suc w) n = ap suc (length-to_le w (n / 256))

pub from_le-to_le : (w n : ℕ) (rest : Bytes) → n < 256 ^ w → from_le w (to_le w n ++ rest) ≡ some n
unfolding to_le from_le
from_le-to_le zero n rest h = ap some (omega arith)
from_le-to_le (suc w) n rest h =
    let p : n / 256 < 256 ^ w = omega (arith, pow-succ' 256 w) in
    rw (from_le-to_le w (n / 256) rest p) (ap some (omega arith))

pub front-append : (bs rest : Bytes) → front (length bs) (bs ++ rest) ≡ some bs
unfolding front
front-append [] rest = refl
front-append (b ∷ bs) rest = rw (front-append bs rest)

pub Reads-load : (w n : ℕ) → n < 256 ^ w → Reads (load w) (to_le w n) n
unfolding load
Reads-load w n h = record {
  runs = λ pre post.
      rw (drop-append pre (to_le w n ++ post), from_le-to_le w n post h, length-to_le w n) refl;
}

pub Reads-load_bytes : (bs : Bytes) → Reads (load_bytes (length bs)) bs bs
unfolding load_bytes
Reads-load_bytes bs = record {
  runs = λ pre post. rw (drop-append pre (bs ++ post), front-append bs post) refl;
}

pub Reads-many {ℓ κ} :
    {A : Type ℓ} (P : A → Type κ) (m : Reader A) (enc : A → Bytes)
    → ((a : A) → P a → Reads m (enc a) a)
    → (xs : List A) → All P xs
    → Reads (many m (length xs)) (flatten (map enc xs)) xs
unfolding many
Reads-many P m enc each [] h = Reads-return []
Reads-many P m enc each (x ∷ xs) (hx, hxs) =
    each x hx
    reads⟨ _ ⟩
      rw (← append-nil (flatten (map enc xs)))
        (Reads-many P m enc each xs hxs reads⟨ _ ⟩ Reads-return (x ∷ xs))

pub Reads-once {ℓ} :
    {A : Type ℓ} {m : Reader A} {bs : Bytes} {a : A} → Reads m bs a → Reads (many m 1) bs (a ∷ [])
unfolding many
Reads-once {bs = bs} {a = a} h =
    rw (← append-nil bs) (h reads⟨ _ ⟩ Reads-return [] reads⟨ _ ⟩ Reads-return (a ∷ []))

-- Behind `m` comes code that reads nothing more.
pub Runs-map {ℓ κ} :
    {A : Type ℓ} {B : Type κ} {m : Reader A} {xs : Bytes} (r : Outcome A) (f : A → Reader B)
    (g : A → B)
    → ((a : A) → Reads (f a) [] (g a))
    → Runs m xs r
    → Runs (m >>= f) (xs ++ []) (map_ok g r)
Runs-map (ok a) f g k h = h reads⟨ _ ⟩ k a
Runs-map {xs = xs} (throws e) f g k h = rw (append-nil xs) (Throws-bind _ h)
Runs-map {xs = xs} fault f g k h = rw (append-nil xs) (Fault-bind _ h)

-- In memory of at most `limit` bytes `m`, started at `bs`, reads past the end.
pub record Faults {ℓ} {A : Type ℓ} (limit : ℕ) (m : Reader A) (bs : Bytes) : Type ℓ where
  pub faults :
      (pre post : Bytes)
      → length (pre ++ (bs ++ post)) ≤ limit
      → m (pre ++ (bs ++ post)) (length pre) ≡ fault

infixr 20 ◌faults⟨◌⟩◌
pub ◌faults⟨◌⟩◌ {ℓ κ} :
    {A : Type ℓ} {B : Type κ} {m : Reader A} {xs ys : Bytes} {a : A} {limit : ℕ}
    → Reads m xs a
    → (f : A → Reader B) → Faults limit (f a) ys
    → Faults limit (m >>= f) (xs ++ ys)
unfolding ◌>>=◌
◌faults⟨◌⟩◌ {xs = xs} {ys = ys} hm f hf = record {
  faults = λ pre post h.
      rw (append_assoc xs ys post, hm.runs pre (ys ++ post))
        (rw (← append_assoc pre xs (ys ++ post), ← length-append pre xs)
          (hf.faults (pre ++ xs) post
            (rw (append_assoc xs ys post, ← append_assoc pre xs (ys ++ post)) at h)));
}

pub Faults-head {ℓ κ} :
    {A : Type ℓ} {B : Type κ} {m : Reader A} {xs : Bytes} {limit : ℕ} (f : A → Reader B)
    → Faults limit m xs
    → Faults limit (m >>= f) xs
unfolding ◌>>=◌
Faults-head f h = record { faults = λ pre post e. rw (h.faults pre post e) }

pub Faults-append {ℓ} :
    {A : Type ℓ} {m : Reader A} {xs : Bytes} {limit : ℕ} (ys : Bytes)
    → Faults limit m xs
    → Faults limit m (xs ++ ys)
Faults-append {xs = xs} ys h = record {
  faults = λ pre post e.
      rw (append_assoc xs ys post) (h.faults pre (ys ++ post) (rw (append_assoc xs ys post) at e));
}

front-none : (n : ℕ) (bs : Bytes) → length bs < n → front n bs ≡ none
unfolding front
front-none zero bs h = absurd (omega arith)
front-none (suc n) [] h = refl
front-none (suc n) (b ∷ bs) h = rw (front-none n bs (omega arith))

pub Faults-load_bytes : (n limit : ℕ) → limit < n → Faults limit (load_bytes n) []
unfolding load_bytes
Faults-load_bytes n limit h = record {
  faults = λ pre post e.
      rw (drop-append pre post, front-none n post (omega (arith, length-append pre post))) refl;
}

pub Faults-run {ℓ} :
    {A : Type ℓ} {m : Reader A} {bs : Bytes} (rest : Bytes)
    → Faults (length (bs ++ rest) + 1) m bs
    → run m (bs ++ rest) ≡ fault
unfolding run
Faults-run {bs = bs} rest h =
    let size : length (bs ++ (rest ++ 0 ∷ [])) ≤ length (bs ++ rest) + 1 = omega (
      arith,
      length-append bs (rest ++ 0 ∷ []),
      length-append rest (0 ∷ []),
      length-append bs rest,
    ) in
    rw (append_assoc bs rest (0 ∷ []), h.faults [] (rest ++ 0 ∷ []) size) refl
