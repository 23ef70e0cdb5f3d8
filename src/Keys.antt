-- ===== src/Keys.antt =====
-- `GenerateKeys`, `SaveKey` and `LoadKey` of sig.hpp and sig.cpp. The files are a map from their names to
-- their bytes.
pub mod RoundTrip
use dave_coin.Base.{ℕ, Bool, true, false, not, ◌||◌, Option, none, some, if◌then◌else◌}
use dave_coin.Bytes.{Bytes, Outcome, ok, throws, ber_error, not_generated, not_valid, open_error}
use dave_coin.Crypto.{Crypto, KeyType, Dsa}
use dave_coin.Dict.{Dict, lookup, insert}

module _ ⦃c : Crypto⦄ where
  -- `GenerateKeys`: what the random pool yields to the generator and to the two tests.
  unfoldable pub generate_keys : Dsa → ℕ → ℕ → ℕ → Outcome (c.PublicKey × c.PrivateKey)
  generate_keys d rng rng1 rng2 =
      let private_key = d.generate rng in
      let public_key = c.public_of private_key in
      if not (d.private_type.validate rng1 private_key)
        || not (d.public_type.validate rng2 public_key)
      then throws not_generated
      else ok (public_key, private_key)

module _ {K : Type 0} (T : KeyType K) where
  -- `SaveKey<T>`: `can_write` tells whether the file sink can open a file of that name.
  unfoldable pub save_key : (Bytes → Bool) → Bytes → K → Dict Bytes → Outcome (Dict Bytes)
  save_key can_write filename key files =
      if can_write filename then ok (insert filename (T.write key) files) else throws open_error

  -- The test of `LoadKey<T>` on what `Load` returned.
  unfoldable pub validated : ℕ → Option K → Outcome K
  validated rng none = throws ber_error
  validated rng (some key) = if T.validate rng key then ok key else throws not_valid

  -- `LoadKey<T>`.
  unfoldable pub load_key : ℕ → Bytes → Dict Bytes → Outcome K
  unfolding validated
  load_key rng filename files = elim (lookup filename files) [
    | none ↦ throws open_error
    | some bytes ↦ validated rng (T.read bytes)
  ]
