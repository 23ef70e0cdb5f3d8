-- ===== src/Packet/Sizes.antt =====
-- The texts in packets of which nothing is known: the decoders trust the size that the packet declares.
use dave_coin.Base.{
  true, ◌-◌, ℕ, zero, suc, ◌+◌, ◌*◌, ◌≤◌, ◌<◌, ◌≡◌, refl, ap, ◌∙◌, [], ◌∷◌, ◌++◌, none, some, arith,
  length, drop, take, ltb, if◌then◌else◌, inl, inr, Bool-cases, length-append, length-drop,
}
use dave_coin.Bytes.{Bytes, from_le, front, ok, fault, load, load_bytes, c_str, ◌>>=◌}
use dave_coin.Packet.{read_at, sized_text, data_start}

-- The number that bytes stand for, the lowest first.
abbrev pub number : Bytes → ℕ
number [] = 0
number (b ∷ bs) = b + 256 * number bs

-- The size that a packet declares behind its header; bytes that are missing count as 0.
abbrev pub text_size : Bytes → ℕ
text_size packet = number (take 4 (drop data_start packet))

from_le-number : (w : ℕ) (bs : Bytes) → w ≤ length bs → from_le w bs ≡ some (number (take w bs))
unfolding from_le
from_le-number zero bs h = refl
from_le-number (suc w) [] h = absurd (omega arith)
from_le-number (suc w) (b ∷ bs) h = rw (from_le-number w bs (omega arith)) refl

from_le-short : (w : ℕ) (bs : Bytes) → length bs < w → from_le w bs ≡ none
unfolding from_le
from_le-short zero bs h = absurd (omega arith)
from_le-short (suc w) [] h = refl
from_le-short (suc w) (b ∷ bs) h = rw (from_le-short w bs (omega arith)) refl

front-take : (n : ℕ) (bs : Bytes) → n ≤ length bs → front n bs ≡ some (take n bs)
unfolding front
front-take zero bs h = refl
front-take (suc n) [] h = absurd (omega arith)
front-take (suc n) (b ∷ bs) h = rw (front-take n bs (omega arith)) refl

front-short : (n : ℕ) (bs : Bytes) → length bs < n → front n bs ≡ none
unfolding front
front-short zero bs h = absurd (omega arith)
front-short (suc n) [] h = refl
front-short (suc n) (b ∷ bs) h = rw (front-short n bs (omega arith)) refl

-- The terminating null does not change a number.
number-null : (w : ℕ) (bs : Bytes) → number (take w (bs ++ 0 ∷ [])) ≡ number (take w bs)
number-null zero bs = refl
number-null (suc zero) [] = refl
number-null (suc (suc w)) [] = refl
number-null (suc w) (b ∷ bs) = ap (λ n. b + 256 * n) (number-null w bs)

drop-null :
    (w k : ℕ) (bs : Bytes) → number (take w (drop k (bs ++ 0 ∷ []))) ≡ number (take w (drop k bs))
drop-null w zero bs = number-null w bs
drop-null zero (suc k) [] = refl
drop-null (suc w) (suc zero) [] = refl
drop-null (suc w) (suc (suc k)) [] = refl
drop-null w (suc k) (b ∷ bs) = drop-null w k bs

-- A text is read if the declared size ends inside the packet or at its terminating null; else the read
-- goes past both.
pub read_at-sized_text :
    (packet : Bytes)
    → read_at sized_text packet data_start ≡ (
        if ltb (length packet) (9 + text_size packet)
        then fault
        else ok (take (text_size packet) (drop 10 (c_str packet))))
unfolding read_at sized_text load load_bytes c_str ◌>>=◌
read_at-sized_text packet =
    let mem = packet ++ 0 ∷ [] in
    let size : length (drop data_start mem) ≡ length packet + 1 - 6 =
      length-drop 6 mem ∙ ap (λ n. n - 6) (length-append packet (0 ∷ [])) in
    let behind : length (drop 10 mem) ≡ length packet + 1 - 10 =
      length-drop 10 mem ∙ ap (λ n. n - 10) (length-append packet (0 ∷ [])) in
    elim (Bool-cases (ltb (length packet) 9)) [
      | inl short ↦
          let over : ltb (length packet) (9 + text_size packet) ≡ true = ground (arith, short) in
          rw (over, from_le-short 4 (drop data_start mem) (ground (arith, size, short))) refl
      | inr long ↦
          let whole : from_le 4 (drop data_start mem) ≡ some (text_size packet) =
            from_le-number 4 (drop data_start mem) (ground (arith, size, long))
            ∙ ap some (drop-null 4 6 packet) in
          elim (Bool-cases (ltb (length packet) (9 + text_size packet))) [
            | inl over ↦
                rw
                  (
                    over,
                    whole,
                    front-short (text_size packet) (drop 10 mem) (ground (arith, behind, over)),
                  )
                  refl
            | inr fits ↦
                rw
                  (
                    fits,
                    whole,
                    front-take (text_size packet) (drop 10 mem) (ground (arith, behind, fits)),
                  )
                  refl
          ]
    ]
