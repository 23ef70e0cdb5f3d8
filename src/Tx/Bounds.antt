-- ===== src/Tx/Bounds.antt =====
-- Decoding of bytes that nothing is known of: where the cursor can go.
use dave_coin.Base.{ℕ, ◌+◌, ◌≤◌, ◌≡◌, arith, length, [], ◌∷◌, length-append}
use dave_coin.Bytes.{Bytes, ok, c_str}
use dave_coin.Bytes.Ensures.{
  Bounded, Bounded-bind, Bounded-return, Bounded-load, Bounded-load_bytes, Bounded-many,
}
use dave_coin.Crypto.{Crypto}
use dave_coin.Tx.Input
use dave_coin.Tx.Output
use dave_coin.Tx.Output.{parse_key}
use dave_coin.Tx.{Tx, decode}

Input-decode-Bounded : Bounded Input.decode
unfolding Input.decode
Input-decode-Bounded = Bounded-bind (Bounded-load 4) λ blocksize.
    Bounded-bind (Bounded-load_bytes blocksize) λ block_hash.
      Bounded-bind (Bounded-load 4) λ inputsize.
        Bounded-bind (Bounded-load_bytes inputsize)
          λ input_hash. Bounded-bind (Bounded-load 4) λ index. Bounded-return _

module _ ⦃c : Crypto⦄ where
  parse_key-Bounded : (material : Bytes) → Bounded (parse_key material)
  unfolding parse_key
  parse_key-Bounded material = record { bounded = λ mem cr k cr' h e. ground arith }

  Output-decode-Bounded : Bounded Output.decode
  unfolding Output.decode
  Output-decode-Bounded = Bounded-bind (Bounded-load 4) λ keysize.
      Bounded-bind (Bounded-load_bytes keysize) λ key_material.
        Bounded-bind (parse_key-Bounded key_material) λ target.
          Bounded-bind (Bounded-load 4)
            λ index. Bounded-bind (Bounded-load 4) λ coins. Bounded-return _

  pub decode-Bounded : (serial : Bytes) → Bounded (decode serial)
  unfolding decode
  decode-Bounded serial = Bounded-bind (Bounded-load 4) λ version.
      Bounded-bind (Bounded-load 4) λ timestamp. Bounded-bind (Bounded-load 4) λ keysize.
        Bounded-bind (Bounded-load_bytes keysize) λ key_material.
          Bounded-bind (parse_key-Bounded key_material) λ origin.
            Bounded-bind (Bounded-load 4) λ input_size.
              Bounded-bind (Bounded-many input_size Input-decode-Bounded) λ inputs.
                Bounded-bind (Bounded-load 4) λ output_size.
                  Bounded-bind (Bounded-many output_size Output-decode-Bounded)
                    λ outputs. Bounded-return _

  -- Whatever bytes `Tx::Decode` is given, with a cursor inside them or at their end, if it returns
  -- then the cursor has not moved back, and it has passed at most the string's terminating null.
  pub decode_bounds :
      (serial : Bytes) (cr : ℕ) (t : Tx c.PublicKey) (cr' : ℕ)
      → cr ≤ length serial
      → decode serial (c_str serial) cr ≡ ok (t, cr')
      → (cr ≤ cr') × (cr' ≤ length serial + 1)
  unfolding c_str
  decode_bounds serial cr t cr' h e =
      let size = length-append serial (0 ∷ []) in
      let (lo, hi) = (decode-Bounded serial).bounded _ cr t cr' (omega (arith, size)) e in
      (lo, omega (arith, size))
