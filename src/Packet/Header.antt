-- ===== src/Packet/Header.antt =====
-- `ReadHeader` on any bytes, and on the packets that the serializers write.
use dave_coin.Base.{
  ◌*◌, false, ℕ, zero, suc, ◌+◌, ◌^◌, ◌≤◌, ◌<◌, ◌≡◌, refl, ap, List, [], ◌∷◌, ◌++◌, some, arith,
  length, flatten, drop, length-append, length-drop, append_assoc, ltb, if◌then◌else◌, inl, inr,
  Bool-cases,
}
use dave_coin.Bytes.{
  or_fault, throws, fault, Bytes, to_le, from_le, Outcome, ok, Reader, load, c_str, result,
}
use dave_coin.Bytes.Reads.{Reads, Reads-load, length-to_le}
use dave_coin.Packet.{
  header_type, packet_of, read_at, read_header, magic_word, client_null, highest_message_type,
}

from_le-some : (w : ℕ) (bs : Bytes) → w ≤ length bs → (n : ℕ) × (from_le w bs ≡ some n)
unfolding from_le
from_le-some zero bs h = (0, refl)
from_le-some (suc w) [] h = absurd (omega arith)
from_le-some (suc w) (b ∷ bs) h =
    let (n, e) = from_le-some w bs (omega arith) in (b + 256 * n, rw e refl)

-- An integer that lies inside the packet is read without a fault.
read_at-load :
    (w : ℕ) (packet : Bytes) (at : ℕ)
    → at + w ≤ length packet
    → (n : ℕ) × (read_at (load w) packet at ≡ ok n)
unfolding read_at load
read_at-load w packet at h =
    let (n, e) =
      from_le-some w (drop at (c_str packet))
        (omega (arith, length-drop at (packet ++ 0 ∷ []), length-append packet (0 ∷ []))) in
    (n, rw e refl)

-- `ReadHeader` never fails and never reads out of bounds: on any bytes it answers a message type from
-- CLIENT_NULL to BLOCK_HEADERS, and so never BROADCAST_TX.
pub read_header_total : (packet : Bytes) → (n : ℕ) × (read_header packet ≡ ok n) × (n ≤ 5)
unfolding read_header
read_header_total packet = elim (Bool-cases (ltb (length packet) 6)) [
  | inl short ↦ (0, rw (short, read_header) refl, omega arith)
  | inr long ↦
      let room : 6 ≤ length packet = ground arith in
      let (magic, em) = read_at-load 4 packet 0 (omega arith) in
      let (k, ek) = read_at-load 2 packet 4 (omega arith) in
      elim (Bool-cases (ltb 5 k)) [
        | inl high ↦ (0, rw (long, em, ek, high) refl, omega arith)
        | inr low ↦ (k, rw (long, em, ek, low) refl, ground arith)
      ]
]

-- A reader at a place inside the packet.
pub read_at-Reads :
    {A : Type 0} {m : Reader A} {a : A} {bs : Bytes} (pre rest : Bytes)
    → Reads m bs a
    → read_at m (pre ++ (bs ++ rest)) (length pre) ≡ ok a
unfolding read_at
read_at-Reads {bs = bs} pre rest h =
    rw
      (
        append_assoc pre (bs ++ rest) (0 ∷ []),
        append_assoc bs rest (0 ∷ []),
        h.runs pre (rest ++ 0 ∷ []),
      )
      refl

-- The magic word, the type and the rest: what the two header fields read as.
header_magic :
    (k : ℕ) (rest : Bytes)
    → read_at (load 4) (to_le 4 magic_word ++ (to_le 2 k ++ rest)) 0 ≡ ok magic_word
header_magic k rest = read_at-Reads [] (to_le 2 k ++ rest) (Reads-load 4 magic_word (omega arith))

header_kind :
    (k : ℕ) (rest : Bytes)
    → k < 2 ^ 16
    → read_at (load 2) (to_le 4 magic_word ++ (to_le 2 k ++ rest)) 4 ≡ ok k
header_kind k rest h =
    rw (length-to_le 4 magic_word) at (read_at-Reads (to_le 4 magic_word) rest (Reads-load 2 k h))

header_size :
    (k : ℕ) (rest : Bytes) → ltb (length (to_le 4 magic_word ++ (to_le 2 k ++ rest))) 6 ≡ false
unfolding to_le
header_size k rest = ground arith

-- The header of a packet that starts with a 16-bit message type names that type, if it is at most
-- BLOCK_HEADERS; on a greater type ReadHeader answers CLIENT_NULL.
pub read_header-packet_of :
    (C : Type 0) (message_type : ℕ) (parts : List Bytes)
    → message_type < 2 ^ 16
    → read_header (packet_of {C = C} message_type parts).serial
      ≡ ok (if ltb highest_message_type message_type then client_null else message_type)
unfolding read_header packet_of
read_header-packet_of C k parts h = elim (Bool-cases (ltb 5 k)) [
  | inl high ↦
      rw
        (
          header_size k (flatten parts),
          header_magic k (flatten parts),
          header_kind k (flatten parts) h,
          high,
        )
        refl
  | inr low ↦
      rw
        (
          header_size k (flatten parts),
          header_magic k (flatten parts),
          header_kind k (flatten parts) h,
          low,
        )
        refl
]

header_type-magic : (m m' : ℕ) (r : Outcome ℕ) → header_type (ok m) r ≡ header_type (ok m') r
header_type-magic m m' (ok k) = refl
header_type-magic m m' (throws e) = refl
header_type-magic m m' fault = refl

four : (a : Bytes) → length a ≡ 4 → (w x y z : ℕ) × (a ≡ w ∷ x ∷ y ∷ z ∷ [])
four (w ∷ x ∷ y ∷ z ∷ []) h = (w, x, y, z, refl)
four (w ∷ x ∷ y ∷ z ∷ v ∷ a) h = absurd (omega arith)
four (w ∷ x ∷ y ∷ []) h = absurd (omega arith)
four (w ∷ x ∷ []) h = absurd (omega arith)
four (w ∷ []) h = absurd (omega arith)
four [] h = absurd (omega arith)

abbrev word : ℕ → ℕ → ℕ → ℕ → ℕ
word w x y z = w + 256 * (x + 256 * (y + 256 * (z + 256 * 0)))

same_header :
    (w x y z w' x' y' z' : ℕ) (rest : Bytes)
    → read_header (w ∷ x ∷ y ∷ z ∷ rest) ≡ read_header (w' ∷ x' ∷ y' ∷ z' ∷ rest)
unfolding read_header load from_le
same_header w x y z w' x' y' z' rest =
    ap (λ r. if ltb (suc (suc (suc (suc (length rest))))) 6 then ok client_null else r)
      (header_type-magic (word w x y z) (word w' x' y' z')
        (result (or_fault (from_le 2 (rest ++ 0 ∷ [])) 6)))

-- `ReadHeader` does not look at the magic word: packets that differ in their first four bytes alone
-- get the same answer.
pub read_header-ignores_magic :
    (a b rest : Bytes)
    → length a ≡ 4
    → length b ≡ 4
    → read_header (a ++ rest) ≡ read_header (b ++ rest)
read_header-ignores_magic a b rest ha hb =
    let (w, x, y, z, ea) = four a ha in
    let (w', x', y', z', eb) = four b hb in rw (ea, eb) (same_header w x y z w' x' y' z' rest)
