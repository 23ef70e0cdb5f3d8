-- ===== src/Crypto.antt =====
-- What sig.hpp, tx.hpp and blockchain.hpp call of Crypto++, as an interface. Crypto++ is not part of
-- the repository: its functions are fields, and what the code relies on is the record `Laws`.
pub mod Toy
use dave_coin.Base.{ℕ, ◌≡◌, ◌↔◌, ◌<◌, ◌^◌, ◌++◌, [], true, Bool, Option, none, some, length}
use dave_coin.Bytes.{Bytes}

pub record Crypto : Type 1 where
  pub PublicKey : Type 0
  pub PrivateKey : Type 0
  -- `DSA::PublicKey()`, a key that nothing has been read into yet. No code saves one: each is read, assigned or
  -- generated before its block or transaction is serialized.
  pub default_key : PublicKey
  -- `key.Save(StringSink(out))`: the DER encoding.
  pub save : PublicKey → Bytes
  -- `key.BERDecode(source)`; `none` is the exception BERDecodeErr.
  pub ber_decode : Bytes → Option PublicKey
  -- `operator==` on public keys.
  pub key_eq : PublicKey → PublicKey → Bool
  -- `public_key.AssignFrom(private_key)`.
  pub public_of : PrivateKey → PublicKey
  -- SHA256's `Update` on the bytes and `Final`.
  pub sha256 : Bytes → Bytes
  -- `SignerFilter`; the number is what the random pool yields.
  pub signer : ℕ → PrivateKey → Bytes → Bytes
  -- `SignatureVerificationFilter` with SIGNATURE_AT_END and PUT_RESULT, over all the bytes piped in.
  pub verifier : PublicKey → Bytes → Bool

module _ ⦃c : Crypto⦄ where
  open c use {save, ber_decode, key_eq, public_of, signer, verifier}

  -- Of keys that were generated or read.
  pub record Laws : Type 0 where
    pub ber_decode-save : (k : c.PublicKey) → ber_decode (save k) ≡ some k
    pub ber_decode_nil : ber_decode [] ≡ none
    pub save_fits : (k : c.PublicKey) → length (save k) < 2 ^ 32
    pub key_eq_iff : (a b : c.PublicKey) → (key_eq a b ≡ true) ↔ (a ≡ b)
    pub verifier-signer :
        (rng : ℕ) (k : c.PrivateKey) (m : Bytes)
        → verifier (public_of k) (m ++ signer rng k m) ≡ true

-- What `LoadKey<T>` and `SaveKey<T>` call of a DSA key of type `K`.
pub record KeyType (K : Type 0) : Type 0 where
  -- `key.Save(queue)`.
  pub write : K → Bytes
  -- `key.Load(queue)`; `none` is the exception BERDecodeErr.
  pub read : Bytes → Option K
  -- `key.Validate(rng, 3)`; the number is what the random pool yields.
  pub validate : ℕ → K → Bool

pub record KeyLaws {K : Type 0} (T : KeyType K) : Type 0 where
  pub read-write : (k : K) → T.read (T.write k) ≡ some k

module _ ⦃c : Crypto⦄ where
  -- What else `GenerateKeys`, `LoadKey` and `SaveKey` call.
  pub record Dsa : Type 0 where
    -- `private_key.GenerateRandomWithKeySize(rng, 1024)`.
    pub generate : ℕ → c.PrivateKey
    pub public_type : KeyType c.PublicKey
    pub private_type : KeyType c.PrivateKey
