-- ===== src/Keys/RoundTrip.antt =====
-- `LoadKey` after `SaveKey`, and what `GenerateKeys` returns.
use dave_coin.Base.{
  ap, inl, inr, ◌⊎◌, Bool-cases, ◌⊎◌, ℕ, ◌≡◌, refl, sym, ◌∙◌, Bool, true, false, some, arith,
  if◌then◌else◌,
}
use dave_coin.Bytes.{Bytes, ok, throws, not_valid, open_error}
use dave_coin.Crypto.{Dsa, Crypto, KeyType, KeyLaws}
use dave_coin.Dict.{same_bytes, Dict, lookup, insert, lookup-insert}
use dave_coin.Keys.{generate_keys, save_key, load_key, validated}

module _ {K : Type 0} (T : KeyType K) where
  load_key-cong :
      (rng : ℕ) (j : Bytes) (files files' : Dict Bytes)
      → lookup j files ≡ lookup j files'
      → load_key T rng j files ≡ load_key T rng j files'
  unfolding load_key
  load_key-cong rng j files files' e = rw (e, load_key) refl

  load_key-found :
      (rng : ℕ) (j : Bytes) (files : Dict Bytes) (bytes : Bytes)
      → lookup j files ≡ some bytes
      → load_key T rng j files ≡ validated T rng (T.read bytes)
  unfolding load_key
  load_key-found rng j files bytes e = rw (e, load_key) refl

  -- Either `SaveKey` throws, since the file cannot be opened, or it returns, and then `LoadKey` gives back
  -- the key that was saved if it passes the validation and throws if it does not, and loads what it did
  -- before from every other file.
  pub load_key-save_key :
      (can_write : Bytes → Bool) (rng : ℕ) (filename : Bytes) (key : K) (files : Dict Bytes)
      → KeyLaws T
      → ((can_write filename ≡ false)
          × (save_key T can_write filename key files ≡ throws open_error))
        ⊎ ((files' : Dict Bytes) × (save_key T can_write filename key files ≡ ok files')
            × ((j : Bytes)
                → load_key T rng j files' ≡ (
                    if same_bytes filename j
                    then (if T.validate rng key then ok key else throws not_valid)
                    else load_key T rng j files)))
  unfolding save_key validated
  load_key-save_key can_write rng filename key files laws = elim (Bool-cases (can_write filename)) [
    | inl y ↦ inr (
      insert filename (T.write key) files,
      rw y refl,
      λ j. elim (Bool-cases (same_bytes filename j)) [
        | inl same ↦
            load_key-found rng j (insert filename (T.write key) files) (T.write key)
              (lookup-insert filename j (T.write key) files ∙ ground (arith, same))
            ∙ rw (laws.read-write key, same) refl
        | inr other ↦
            load_key-cong rng j (insert filename (T.write key) files) files
              (lookup-insert filename j (T.write key) files ∙ ground (arith, other))
            ∙ rw other refl
      ],
    )
    | inr n ↦ inl (n, rw n refl)
  ]

  -- What is in the file under `filename` decides what `LoadKey` does.
  pub load_key-lookup :
      (rng : ℕ) (filename : Bytes) (key : K) (files : Dict Bytes)
      → KeyLaws T
      → lookup filename files ≡ some (T.write key)
      → T.validate rng key ≡ true
      → load_key T rng filename files ≡ ok key
  unfolding validated
  load_key-lookup rng filename key files laws h v =
      load_key-found rng filename files _ h ∙ rw (laws.read-write key, v) refl

  pub lookup-save_key :
      (can_write : Bytes → Bool) (filename j : Bytes) (key : K) (files : Dict Bytes)
      {files' : Dict Bytes}
      → save_key T can_write filename key files ≡ ok files'
      → lookup j files' ≡ (if same_bytes filename j then some (T.write key) else lookup j files)
  unfolding save_key
  lookup-save_key can_write filename j key files h =
      ap (lookup j) (sym (saved h)) ∙ lookup-insert filename j (T.write key) files
    where
      saved :
          {files' : Dict Bytes}
          → save_key T can_write filename key files ≡ ok files'
          → insert filename (T.write key) files ≡ files'
      saved h = ground arith

module _ ⦃c : Crypto⦄ where
  -- What `GenerateKeys` returns is a key pair whose keys have passed the validation.
  pub generate_keys-pair :
      (d : Dsa) (rng rng1 rng2 : ℕ) {public_key : c.PublicKey} {private_key : c.PrivateKey}
      → generate_keys d rng rng1 rng2 ≡ ok (public_key, private_key)
      → (public_key ≡ c.public_of private_key)
        × (d.private_type.validate rng1 private_key ≡ true)
        × (d.public_type.validate rng2 public_key ≡ true)
  unfolding generate_keys
  generate_keys-pair d rng rng1 rng2 h = ground arith
