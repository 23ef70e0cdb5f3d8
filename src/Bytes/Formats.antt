-- ===== src/Bytes/Formats.antt =====
-- Readers of a format: what they make of a list of items, and that they tell different values apart.
use dave_coin.Base.{◌≡◌, sym, ap, ◌∙◌, List, [], ◌∷◌, ◌++◌, All, length, flatten, map, append-nil}
use dave_coin.Bytes.{Bytes, Reader, many, run, ok}
use dave_coin.Bytes.Reads.{Reads, Reads-return, ◌reads⟨◌⟩◌, run-append}

-- A loop that reads items, each of which comes back as its `value`.
pub Reads-each {ℓ κ μ} :
    {X : Type ℓ} {A : Type κ} (P : X → Type μ) (m : Reader A) (enc : X → Bytes) (value : X → A)
    → ((x : X) → P x → Reads m (enc x) (value x))
    → (xs : List X) → All P xs
    → Reads (many m (length xs)) (flatten (map enc xs)) (map value xs)
unfolding many
Reads-each P m enc value each [] h = Reads-return []
Reads-each P m enc value each (x ∷ xs) (hx, hxs) =
    each x hx
    reads⟨ _ ⟩
      rw (← append-nil (flatten (map enc xs)))
        (Reads-each P m enc value each xs hxs reads⟨ _ ⟩ Reads-return (value x ∷ map value xs))

ok-cancel {ℓ} : {A : Type ℓ} {a b : A} → ok a ≡ ok b → a ≡ b
ok-cancel e = cc

pub Reads-injective {ℓ} :
    {A : Type ℓ} {xs ys : Bytes} {a b : A} (m : Reader A)
    → Reads m xs a
    → Reads m ys b
    → xs ≡ ys
    → a ≡ b
Reads-injective m h k e =
    ok-cancel (sym (run-append [] h) ∙ ap (λ zs. run m (zs ++ [])) e ∙ run-append [] k)
