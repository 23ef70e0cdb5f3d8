-- ===== src/Tx/RoundTrip.antt =====
-- `Tx::Decode` after `Tx::Serialize`, by the number of outputs.
use native.Mathlib.Nat.{mod-eq_of_lt}
use dave_coin.Base.{
  subst, ◌∙◌, ap, sym, ℕ, suc, ◌%◌, ◌/◌, ◌^◌, ◌<◌, ◌≡◌, refl, List, [], ◌∷◌, ◌++◌, arith, length,
  flatten, map, append-nil, append_assoc,
}
use dave_coin.Bytes.{run, Bytes, to_le, Outcome, many, ok, throws, ber_error}
use dave_coin.Bytes.Reads.{
  run-append, Runs, Reads, Reads-return, ◌reads⟨◌⟩◌, Throws-bind, Runs-append, Reads-load,
  Reads-load_bytes, Reads-many, Runs-map, Reads-once, map_ok,
}
use dave_coin.Crypto.{Crypto, Laws}
use dave_coin.Sig.{calculate_sha256}
use dave_coin.Tx.Input
use dave_coin.Tx.Output
use dave_coin.Tx.Output.{TxOutput}
use dave_coin.Tx.{Tx, serialize, decode}
use dave_coin.Tx.Fits.{Readable, InputFits, OutputFits, TxFits}
use dave_coin.Tx.Fields.{
  Input-decode-serialize, Runs-key, Throws-parse_key, stem, low_coins, Output-decode-stem,
  Output-serialize-stem,
}

module _ ⦃c : Crypto⦄ where
  -- A transaction's bytes with `ys` for those of its outputs.
  unfoldable pub layout : Tx c.PublicKey → Bytes → Bytes
  layout t ys =
      let keysize = length (c.save t.origin) % 2 ^ 32 in
      let input_size = length t.inputs % 2 ^ 32 in
      let output_size = length t.outputs % 2 ^ 32 in
      flatten (
        to_le 4 t.version
        ∷ to_le 4 t.timestamp
        ∷ to_le 4 keysize
        ∷ c.save t.origin
        ∷ to_le 4 input_size
        ∷ flatten (map Input.serialize t.inputs)
        ∷ to_le 4 output_size
        ∷ ys
        ∷ [])

  -- What a decoder that runs over `serial` makes of `t`, with the outputs that it read.
  unfoldable pub received : Bytes → Tx c.PublicKey → List (TxOutput c.PublicKey) → Tx c.PublicKey
  received serial t outs = record t { hash = calculate_sha256 serial; sig = []; outputs = outs }

  pub layout-append : (t : Tx c.PublicKey) (xs ys : Bytes) → layout t (xs ++ ys) ≡ layout t xs ++ ys
  unfolding layout
  layout-append t xs ys = simp (append_assoc, append-nil)

  serialize-layout :
      (t : Tx c.PublicKey) → serialize t ≡ layout t (flatten (map Output.serialize t.outputs))
  unfolding serialize layout
  serialize-layout t = refl

  -- What is left of one output's transaction is the upper half of its coins.
  pub serialize_one :
      (t : Tx c.PublicKey) (o : TxOutput c.PublicKey)
      → t.outputs ≡ o ∷ []
      → layout t (stem o) ++ to_le 4 (o.coins / 2 ^ 32) ≡ serialize t
  serialize_one t o e = sym (
      serialize-layout t
      ∙ ap (layout t)
          (ap (λ os. flatten (map Output.serialize os)) e ∙ append-nil _ ∙ Output-serialize-stem o)
      ∙ layout-append t (stem o) _)

  -- Equal outputs make equal transactions.
  same_outputs :
      (serial : Bytes) (t : Tx c.PublicKey) (outs : List (TxOutput c.PublicKey))
      → outs ≡ t.outputs
      → received serial t outs ≡ record t { hash = calculate_sha256 serial; sig = [] }
  unfolding received
  same_outputs serial t outs e =
      ap (λ os. record t { hash = calculate_sha256 serial; sig = []; outputs = os }) e

  low_coins-small : (o : TxOutput c.PublicKey) → o.coins < 2 ^ 32 → low_coins o ≡ o
  unfolding low_coins
  low_coins-small o h = ap (λ n. record o { coins = n }) (mod-eq_of_lt h)

module _ ⦃c : Crypto⦄ (laws : Laws) where
  -- All but the outputs is read back, and the outputs as their loop reads them.
  pub Runs-layout :
      (serial ys : Bytes) (t : Tx c.PublicKey) {r : Outcome (List (TxOutput c.PublicKey))}
      → TxFits t
      → Runs (many Output.decode (length t.outputs)) ys r
      → Runs (decode serial) (layout t ys) (map_ok (received serial t) r)
  unfolding decode layout received
  Runs-layout serial ys t {r} h outs =
      rw (mod-eq_of_lt h.inputs_count, mod-eq_of_lt h.outputs_count)
        (Reads-load 4 t.version h.version_fits
          reads⟨ _ ⟩ Reads-load 4 t.timestamp h.timestamp_fits
          reads⟨ _ ⟩
            Runs-key laws t.origin _ (
              Reads-load 4 (length t.inputs) h.inputs_count
              reads⟨ _ ⟩ Reads-many InputFits _ _ Input-decode-serialize t.inputs h.inputs_fit
              reads⟨ _ ⟩ Reads-load 4 (length t.outputs) h.outputs_count
              reads⟨ _ ⟩ Runs-map r _ (received serial t) (λ a. Reads-return _) outs))

  no_outputs : Reads (many Output.decode 0) [] []
  unfolding many
  no_outputs = Reads-return []

  one_output :
      (o : TxOutput c.PublicKey)
      → OutputFits o
      → Reads (many Output.decode 1) (stem o) (low_coins o ∷ [])
  one_output o h = Reads-once (Output-decode-stem laws o h)

  -- Four zero bytes where an output should start are the size of an empty key.
  empty_key : Runs Output.decode (to_le 4 0) (throws ber_error)
  unfolding Output.decode
  empty_key = rw (← append-nil (to_le 4 0)) (
      Reads-load 4 0 (omega arith)
      reads⟨ _ ⟩ Reads-load_bytes []
      reads⟨ _ ⟩ Throws-bind _ (Throws-parse_key laws))

  two_outputs :
      (o : TxOutput c.PublicKey) (n : ℕ) (rest : Bytes)
      → OutputFits o
      → o.coins < 2 ^ 32
      → Runs (many Output.decode (suc (suc n))) (Output.serialize o ++ rest) (throws ber_error)
  unfolding many
  two_outputs o n rest h small =
      rw
        (
          Output-serialize-stem o,
          append_assoc (stem o) (to_le 4 (o.coins / 2 ^ 32)) rest,
          zero_half,
        )
        (Output-decode-stem laws o h
          reads⟨ _ ⟩ Throws-bind _ (Throws-bind _ (Runs-append rest (λ a e. cc) empty_key)))
    where
      zero_half : o.coins / 2 ^ 32 ≡ 0
      zero_half = omega arith

  -- A transaction with one output comes back with the coins cut to 32 bits, hashed anew and without its
  -- signature; the bytes that are left are the upper half of the coins.
  pub decode_one :
      (t : Tx c.PublicKey) (o : TxOutput c.PublicKey) (serial : Bytes)
      → TxFits t
      → t.outputs ≡ o ∷ []
      → Reads (decode serial) (layout t (stem o)) (received serial t (low_coins o ∷ []))
  decode_one t o serial h e =
      Runs-layout serial (stem o) t {r = ok (low_coins o ∷ [])} h
        (rw e (one_output o (rw e at h.outputs_fit).0))

  -- A transaction that fits the format and has one output comes back from its own bytes, but for the
  -- coins, which are cut to 32 bits, and the signature, which is not in them; the hash is that of
  -- the bytes.
  pub decode-serialize_one :
      (t : Tx c.PublicKey) (o : TxOutput c.PublicKey)
      → TxFits t
      → t.outputs ≡ o ∷ []
      → run (decode (serialize t)) (serialize t)
        ≡ ok (record t {
          hash = calculate_sha256 (serialize t);
          sig = [];
          outputs = low_coins o ∷ [];
        })
  unfolding received
  decode-serialize_one t o h e =
      rw (serialize_one t o e) at
        (run-append (to_le 4 (o.coins / 2 ^ 32)) (decode_one t o (serialize t) h e))

  Reads-Readable_by :
      (t : Tx c.PublicKey) (serial : Bytes) (outs : List (TxOutput c.PublicKey))
      → TxFits t
      → t.outputs ≡ outs
      → Readable outs
      → (bs rest : Bytes) × (serialize t ≡ bs ++ rest)
        × Reads (decode serial) bs (record t { hash = calculate_sha256 serial; sig = [] })
  Reads-Readable_by t serial [] h e small = (
    layout t [],
    [],
    serialize-layout t
        ∙ ap (λ os. layout t (flatten (map Output.serialize os))) e
        ∙ sym (append-nil (layout t [])),
    subst (Reads _ _) (same_outputs serial t [] (sym e))
        (Runs-layout serial [] t {r = ok []} h (rw e no_outputs)),
  )
  Reads-Readable_by t serial (o ∷ []) h e small = (
    layout t (stem o),
    to_le 4 (o.coins / 2 ^ 32),
    sym (serialize_one t o e),
    subst (Reads _ _) (same_outputs serial t _ (ap (λ p. p ∷ []) (low_coins-small o small) ∙ sym e))
        (decode_one t o serial h e),
  )
  Reads-Readable_by t serial (o ∷ p ∷ os) h e small = absurd small

  -- From the first of its bytes on, a readable transaction is read back, by a decoder that runs over
  -- any string `serial` that holds them; a few bytes may be left.
  pub Reads-Readable :
      (t : Tx c.PublicKey) (serial : Bytes)
      → TxFits t
      → Readable t.outputs
      → (bs rest : Bytes) × (serialize t ≡ bs ++ rest)
        × Reads (decode serial) bs (record t { hash = calculate_sha256 serial; sig = [] })
  Reads-Readable t serial h small = Reads-Readable_by t serial t.outputs h refl small

  -- A transaction that fits the format, with no output or with one of fewer than 2 ^ 32 coins, comes
  -- back whole from its own bytes, but for the signature; the hash is that of the bytes.
  pub decode-serialize :
      (t : Tx c.PublicKey)
      → TxFits t
      → Readable t.outputs
      → run (decode (serialize t)) (serialize t)
        ≡ ok (record t { hash = calculate_sha256 (serialize t); sig = [] })
  decode-serialize t h small =
      let (bs, rest, e, reads) = Reads-Readable t (serialize t) h small in
      ap (run (decode (serialize t))) e ∙ run-append rest reads

  -- A transaction that fits the format and has two outputs or more, the first of fewer than 2 ^ 32
  -- coins, cannot be decoded from its own bytes: the call ends in Crypto++'s exception for a key.
  pub decode-serialize_many :
      (t : Tx c.PublicKey) (o p : TxOutput c.PublicKey) (os : List (TxOutput c.PublicKey))
      → TxFits t
      → t.outputs ≡ o ∷ p ∷ os
      → o.coins < 2 ^ 32
      → run (decode (serialize t)) (serialize t) ≡ throws ber_error
  decode-serialize_many t o p os h e small =
      rw (append-nil (layout t ys), ← bytes) at
        (run-append [] (
          Runs-layout (serialize t) ys t {r = throws ber_error} h
            (rw e (two_outputs o _ _ (rw e at h.outputs_fit).0 small))))
    where
      ys : Bytes
      ys = flatten (map Output.serialize (o ∷ p ∷ os))

      bytes : serialize t ≡ layout t ys
      bytes = serialize-layout t ∙ ap (λ os. layout t (flatten (map Output.serialize os))) e
