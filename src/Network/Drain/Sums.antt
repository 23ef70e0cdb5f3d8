-- ===== src/Network/Drain/Sums.antt =====
-- Sums over the nodes of a network, as one node changes and as connections are made.
use dave_coin.Base.{
  ℕ, ◌+◌, ◌≤◌, ◌≡◌, ◌≢◌, refl, sym, ap, subst, List, [], ◌∷◌, ◌++◌, true, arith, All, inl, inr,
  Bool-cases,
}
use dave_coin.Bytes.{Bytes}
use dave_coin.Dict.{same_bytes, same_bytes_iff, same_bytes_refl}
use dave_coin.Network.{Net, Letter, put}
use dave_coin.Network.Drain.{sum_of, IsIn, Distinct, Acts, dial_cost, letter_cost, dials, work_at}
use dave_coin.Node.{Node}
use dave_coin.Tcp.{Tcp}

sum_of-le {ℓ} :
    {A : Type ℓ} (f g : A → ℕ) (xs : List A) → ((x : A) → f x ≤ g x) → sum_of f xs ≤ sum_of g xs
sum_of-le f g [] h = omega arith
sum_of-le f g (x ∷ xs) h = omega (arith, h x, sum_of-le f g xs h)

pub sum_of-append {ℓ} :
    {A : Type ℓ} (f : A → ℕ) (xs ys : List A) → sum_of f (xs ++ ys) ≡ sum_of f xs + sum_of f ys
sum_of-append f [] ys = omega arith
sum_of-append f (x ∷ xs) ys = omega (arith, sum_of-append f xs ys)

pub sum_of-middle {ℓ} :
    {A : Type ℓ} (f : A → ℕ) (xs ys : List A) (x : A)
    → sum_of f (xs ++ x ∷ ys) ≡ f x + sum_of f (xs ++ ys)
sum_of-middle f [] ys x = refl
sum_of-middle f (z ∷ xs) ys x = omega (arith, sum_of-middle f xs ys x)

-- More connections, less work.
abbrev pub Grows : Acts → Acts → Type 0
Grows act act' = (x y : Bytes) → act x y ≡ true → act' x y ≡ true

dial_cost-le :
    (act act' : Acts) (y x : Bytes) → Grows act act' → dial_cost act' y x ≤ dial_cost act y x
dial_cost-le act act' y x h = ground (arith, h x y)

letter_cost-le :
    (act act' : Acts) (l : Letter) → Grows act act' → letter_cost act' l ≤ letter_cost act l
letter_cost-le act act' l h = ground (arith, h l.to l.from, h l.from l.to)

module _ ⦃t : Tcp⦄ where
  pub work_at-le :
      (act act' : Acts) (who : List Bytes) (net : Net)
      → Grows act act'
      → work_at act' who net ≤ work_at act who net
  work_at-le act act' who net h = omega (
    arith,
    sum_of-le (letter_cost act') (letter_cost act) net.flight (λ l. letter_cost-le act act' l h),
    sum_of-le (λ y. dials act' y (net.nodes y)) (λ y. dials act y (net.nodes y)) who
        (λ y.
          sum_of-le (dial_cost act' y) (dial_cost act y) (net.nodes y).connecting
            (λ x. dial_cost-le act act' y x h)),
  )

  put-absent :
      (f : Bytes → Node → ℕ) (w : Bytes) (node : Node) (nodes : Bytes → Node) (who : List Bytes)
      → All (λ i. w ≢ i) who
      → sum_of (λ j. f j (put w node nodes j)) who ≡ sum_of (λ j. f j (nodes j)) who
  put-absent f w node nodes [] h = refl
  put-absent f w node nodes (j ∷ js) (ne, h) = elim (Bool-cases (same_bytes w j)) [
    | inl y ↦ absurd (ne ((same_bytes_iff w j).0 y))
    | inr n ↦ rw n (ap (λ k. f j (nodes j) + k) (put-absent f w node nodes js h))
  ]

  put-first :
      (f : Bytes → Node → ℕ) (w : Bytes) (node : Node) (nodes : Bytes → Node) (js : List Bytes)
      → All (λ i. w ≢ i) js
      → sum_of (λ j. f j (put w node nodes j)) (w ∷ js) + f w (nodes w)
        ≡ sum_of (λ j. f j (nodes j)) (w ∷ js) + f w node
  put-first f w node nodes js fresh =
      rw (same_bytes_refl w) (omega (arith, put-absent f w node nodes js fresh))

  -- One summand changes.
  pub sum_of-put :
      (f : Bytes → Node → ℕ) (w : Bytes) (node : Node) (nodes : Bytes → Node) (who : List Bytes)
      → Distinct who
      → IsIn w who
      → sum_of (λ j. f j (put w node nodes j)) who + f w (nodes w)
        ≡ sum_of (λ j. f j (nodes j)) who + f w node
  sum_of-put f w node nodes [] d h = elim h [ ]
  sum_of-put f w node nodes (j ∷ js) (fresh, d) h = elim (Bool-cases (same_bytes w j)) [
    | inl y ↦
        let e = (same_bytes_iff w j).0 y in
        subst
          (λ i.
            sum_of (λ k. f k (put w node nodes k)) (i ∷ js) + f w (nodes w)
            ≡ sum_of (λ k. f k (nodes k)) (i ∷ js) + f w node)
          e (put-first f w node nodes js (subst (λ i. All (λ k. i ≢ k) js) (sym e) fresh))
    | inr n ↦ elim h [
      | inl e ↦ absurd (ground (arith, n, same_bytes_iff w j, e))
      | inr there ↦ rw n (omega (arith, sum_of-put f w node nodes js d there))
    ]
  ]
