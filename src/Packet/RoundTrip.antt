-- ===== src/Packet/RoundTrip.antt =====
-- Each decoder after its serializer, also with bytes behind the packet.
use native.Mathlib.Nat.{mod-eq_of_lt}
use dave_coin.Base.{
  sym, ap, ◌∷◌, ◌∙◌, flatten, List, false, suc, ℕ, ◌%◌, ◌^◌, ◌<◌, ◌≡◌, refl, [], ◌++◌, arith,
  length, map, length-append, append_assoc, append-nil, ltb,
}
use dave_coin.Bytes.{Bytes, to_le, Reader, ok}
use dave_coin.Bytes.Reads.{Reads, Reads-load, Reads-load_bytes, ◌reads⟨◌⟩◌, length-to_le}
use dave_coin.Crypto.{Crypto, Laws}
use dave_coin.Sig.{calculate_sha256}
use dave_coin.Block
use dave_coin.Block.{Block, Garbage, decode_block}
use dave_coin.Block.Fits.{BlockFits, ReadableTx}
use dave_coin.Block.RoundTrip.{received_tx, decode_block-serialize}
use dave_coin.Packet.{
  packet_of, read_at, magic_word, client_poke, simple_string, mined_block, data_start, sized_text,
  serialize_client_poke, decode_client_poke, serialize_simple_string, decode_simple_string,
  serialize_mined_block, decode_mined_block,
}
use dave_coin.Packet.Header.{read_at-Reads}

head : ℕ → Bytes
head k = to_le 4 magic_word ++ to_le 2 k

length-head : (k : ℕ) → length (head k) ≡ 6
unfolding head
length-head k =
    rw (length-append (to_le 4 magic_word) (to_le 2 k), length-to_le 4 magic_word, length-to_le 2 k)
      refl

-- What a reader at DATA_START makes of a packet's data, whatever is behind it.
read_at-packet :
    {A : Type 0} {m : Reader A} {a : A} {bs : Bytes} (k : ℕ) (rest : Bytes)
    → Reads m bs a
    → read_at m (to_le 4 magic_word ++ (to_le 2 k ++ (bs ++ rest))) data_start ≡ ok a
unfolding head
read_at-packet {bs = bs} k rest h =
    rw (← append_assoc (to_le 4 magic_word) (to_le 2 k) (bs ++ rest))
      (rw (length-head k) at (read_at-Reads (head k) rest h))

Reads-sized_text :
    (s : Bytes) → length s < 2 ^ 32 → Reads sized_text (to_le 4 (length s % 2 ^ 32) ++ s) s
unfolding sized_text
Reads-sized_text s h = rw (mod-eq_of_lt h) (Reads-load 4 (length s) h reads⟨ _ ⟩ Reads-load_bytes s)

read_text :
    (k : ℕ) (s rest : Bytes)
    → length s < 2 ^ 32
    → read_at sized_text
        (to_le 4 magic_word ++ (to_le 2 k ++ (to_le 4 (length s % 2 ^ 32) ++ (s ++ rest))))
        data_start
      ≡ ok s
read_text k s rest h =
    rw (append_assoc (to_le 4 (length s % 2 ^ 32)) s rest) at
      (read_at-packet k rest (Reads-sized_text s h))

-- A poke's IP address and a simple string, of fewer than 2 ^ 32 bytes each, come back from the packets
-- that carry them.
pub decode-serialize_text :
    (C : Type 0) (ip s : Bytes)
    → length ip < 2 ^ 32
    → length s < 2 ^ 32
    → (decode_client_poke (serialize_client_poke {C = C} ip).serial
        ≡ ok (record { message_type = client_poke; payload = ip }))
      × (decode_simple_string (serialize_simple_string {C = C} s).serial
          ≡ ok (record { message_type = simple_string; payload = s }))
unfolding decode_client_poke serialize_client_poke decode_simple_string serialize_simple_string
decode-serialize_text C ip s hip hs =
    (rw (read_text client_poke ip [] hip) refl, rw (read_text simple_string s [] hs) refl)

flatten-behind :
    (parts : List Bytes) (rest : Bytes) → flatten parts ++ rest ≡ flatten (parts ++ rest ∷ [])
flatten-behind [] rest = sym (append-nil rest)
flatten-behind (part ∷ parts) rest =
    append_assoc part (flatten parts) rest ∙ ap (λ bs. part ++ bs) (flatten-behind parts rest)

-- A packet and the bytes behind it.
pub packet_of-behind :
    (C : Type 0) (k : ℕ) (parts : List Bytes) (rest : Bytes)
    → (packet_of {C = C} k parts).serial ++ rest ≡ (packet_of {C = C} k (parts ++ rest ∷ [])).serial
unfolding packet_of
packet_of-behind C k parts rest = flatten-behind (to_le 4 magic_word ∷ to_le 2 k ∷ parts) rest

-- A simple string comes back from its packet, whatever is behind the packet.
pub decode_simple_string-behind :
    (C : Type 0) (s rest : Bytes)
    → length s < 2 ^ 32
    → decode_simple_string ((serialize_simple_string {C = C} s).serial ++ rest)
      ≡ ok (record { message_type = simple_string; payload = s })
unfolding decode_simple_string serialize_simple_string packet_of
decode_simple_string-behind C s rest h =
    rw
      (
        packet_of-behind C simple_string (to_le 4 (length s % 2 ^ 32) ∷ s ∷ []) rest,
        read_text simple_string s (rest ++ []) h,
      )
      refl

not_short : (n : ℕ) → ltb (suc (suc (suc (suc (suc (suc n)))))) data_start ≡ false
not_short n = ground arith

module _ ⦃c : Crypto⦄ (laws : Laws) where
  -- A mined block that fits the format, with no transaction, or with one that has no output or one
  -- of fewer than 2 ^ 32 coins, comes back from its packet, but for the solved flag, the
  -- transaction's signature, and the hashes, which are those of the block's bytes.
  pub decode-serialize_mined_block :
      (C : Type 0) (g : Garbage) (now : ℕ) (b : Block c.PublicKey)
      → BlockFits b
      → ReadableTx b.tx
      → decode_mined_block g now (serialize_mined_block {C = C} b).serial
        ≡ ok (record {
          message_type = mined_block;
          payload = record b {
            tx = map (received_tx (Block.serialize b)) b.tx;
            solved = g.solved;
            hash = calculate_sha256 (Block.serialize b);
          };
        })
  unfolding decode_mined_block serialize_mined_block to_le
  decode-serialize_mined_block C g now b h small =
      rw (append-nil (Block.serialize b), decode_block-serialize laws g now b h small, not_short _)
        refl
