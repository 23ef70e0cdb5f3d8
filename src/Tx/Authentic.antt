-- ===== src/Tx/Authentic.antt =====
-- `Tx::DecodeAndVerify` against whoever holds no private key: what tx.hpp promises of a transaction that
-- was changed on its way.
use dave_coin.Base.{
  inl, Bool-cases, inr, ◌≢◌, ◌⊎◌, append_inj, subst, ◌∙◌, sym, ◌^◌, ◌<◌, ℕ, ◌≡◌, ap, List, [], ◌∷◌,
  ◌++◌, true, arith, length, All, Any, Any-map,
}
use dave_coin.Bytes.{Bytes, ok}
use dave_coin.Dict.{same_bytes, same_bytes_iff}
use dave_coin.Crypto.{Crypto, Laws}
use dave_coin.Sig.{calculate_sha256, validate_signature}
use dave_coin.Tx.Input.{TxInput}
use dave_coin.Tx.Output.{TxOutput}
use dave_coin.Tx.{Tx, serialize, decode_and_verify, construct_and_sign}
use dave_coin.Tx.Fits.{OutputFits, InputFits, TxFits, Readable}
use dave_coin.Tx.Construct.{construct_and_sign-TxFits, construct_and_sign_signed}
use dave_coin.Tx.Signing.{decode_and_verify_sound, decode_and_verify_result}

module _ ⦃c : Crypto⦄ where
  -- A transaction that `ConstructAndSign` made with `key`, at any time and with any random bits, of inputs
  -- and one output that fit the format.
  pub record MadeWith (key : c.PrivateKey) (t : Tx c.PublicKey) : Type 0 where
    pub now : ℕ
    pub rng : ℕ
    pub given : List TxInput
    pub output : TxOutput c.PublicKey
    pub few : length given < 2 ^ 32
    pub given_fit : All InputFits given
    pub output_fits : OutputFits output
    pub few_coins : output.coins < 2 ^ 32
    pub made : construct_and_sign now rng given (output ∷ []) (c.public_of key) key ≡ ok t

  -- The message that the signature of a transaction is for.
  abbrev pub signed_message : Tx c.PublicKey → Bytes
  signed_message t = serialize t ++ t.hash

  signed_or_not :
      (m : Bytes) (made : List (Tx c.PublicKey))
      → Any (λ u. m ≡ signed_message u) made ⊎ All (λ u. m ≢ signed_message u) made
  signed_or_not m [] = inr tt
  signed_or_not m (u ∷ made) = elim (Bool-cases (same_bytes m (signed_message u))) [
    | inl y ↦ inl (inl ((same_bytes_iff m (signed_message u)).0 y))
    | inr n ↦
        let other : m ≢ signed_message u =
          λ e. let y = (same_bytes_iff m (signed_message u)).1 e in absurd (ground (arith, y, n)) in
        elim (signed_or_not m made) [
          | inl known ↦ inl (inr known)
          | inr unknown ↦ inr (other, unknown)
        ]
  ]

module _ ⦃c : Crypto⦄ (laws : Laws) where
  -- What `DecodeAndVerify` needs of a transaction.
  made_fits :
      (key : c.PrivateKey) (u : Tx c.PublicKey)
      → MadeWith key u
      → TxFits u
        × Readable u.outputs
        × (u.hash ≡ calculate_sha256 (serialize u))
        × (u.origin ≡ c.public_of key)
  made_fits key u m =
      let fits =
        construct_and_sign-TxFits m.now m.rng m.given (m.output ∷ []) (c.public_of key) key m.few
          (omega arith) m.given_fit (m.output_fits, tt) m.made in
      let (_, h, _, os, k) =
        construct_and_sign_signed laws m.now m.rng m.given (m.output ∷ []) key m.made in
      (fits, rw os m.few_coins, h, k)

  -- One of the transactions has the signed message of the bytes, so it has the bytes.
  read_back :
      (key : c.PrivateKey) (u : Tx c.PublicKey) (serial signature : Bytes) {t : Tx c.PublicKey}
      → ((d : Bytes) → length (calculate_sha256 d) ≡ 32)
      → MadeWith key u
      → serial ++ calculate_sha256 serial ≡ signed_message u
      → decode_and_verify serial signature (c.public_of key) ≡ ok t
      → (serial ≡ serialize u) × (u.origin ≡ c.public_of key) × (t ≡ record u { sig = signature })
  read_back key u serial signature {t} size m e returned =
      let (fits, small, h, k) = made_fits key u m in
      let (same, _) =
        append_inj serial (serialize u) (calculate_sha256 serial) u.hash
          (size serial ∙ sym (ap length h ∙ size (serialize u))) e in
      let again =
        subst (λ s. decode_and_verify s signature (c.public_of key) ≡ ok t) same returned in
      let good = (decode_and_verify_sound (serialize u) signature (c.public_of key) again).0 in
      let shown =
        rw (good, ← h) at
          (decode_and_verify_result laws u signature (c.public_of key) fits small) in
      (same, k, cc)

  -- Let digests have 32 bytes, let `key` be a private key and the transactions in `made` some that
  -- `ConstructAndSign` made with it, each of inputs that fit the format and one output that fits it, of fewer
  -- than 2 ^ 32 coins. If `DecodeAndVerify` returns for any bytes and signature under the public key, then
  -- the bytes are those of one of these transactions, whose origin is the public key, and it returns
  -- that transaction with the given signature; or else the signature is a forgery: the bytes with
  -- their digest are the signed message of none of these transactions, and yet it is valid for them.
  pub decode_and_verify_authentic :
      (key : c.PrivateKey) (made : List (Tx c.PublicKey)) (serial signature : Bytes)
      {t : Tx c.PublicKey}
      → ((d : Bytes) → length (calculate_sha256 d) ≡ 32)
      → All (MadeWith key) made
      → decode_and_verify serial signature (c.public_of key) ≡ ok t
      → Any
          (λ u.
            (serial ≡ serialize u)
            × (u.origin ≡ c.public_of key)
            × (t ≡ record u { sig = signature }))
          made
        ⊎ (All (λ u. serial ++ calculate_sha256 serial ≢ signed_message u) made
            × (validate_signature (serial ++ calculate_sha256 serial) signature (c.public_of key)
                ≡ true))
  decode_and_verify_authentic key made serial signature {t} size all e =
      let message = serial ++ calculate_sha256 serial in
      elim (signed_or_not message made) [
        | inl known ↦ inl (
            Any-map (MadeWith key) (λ u. message ≡ signed_message u) _ made
              (λ u m same. read_back key u serial signature size m same e) all known)
        | inr unknown ↦
            inr (unknown, (decode_and_verify_sound serial signature (c.public_of key) e).0)
      ]
