-- ===== src/Sig.antt =====
-- sig.hpp and sig.cpp: hashes and signatures over byte strings, each a thin use of Crypto++.
use dave_coin.Base.{ℕ, Bool, ◌++◌}
use dave_coin.Bytes.{Bytes}
use dave_coin.Crypto.{Crypto}

module _ ⦃c : Crypto⦄ where
  unfoldable pub calculate_sha256 : Bytes → Bytes
  calculate_sha256 d = c.sha256 d

  -- The signature depends on the private key and on the random pool; the public key is not read.
  unfoldable pub sign_message : ℕ → Bytes → c.PublicKey → c.PrivateKey → Bytes
  sign_message rng message public_key private_key = c.signer rng private_key message

  -- The signature is piped in behind the message.
  unfoldable pub validate_signature : Bytes → Bytes → c.PublicKey → Bool
  validate_signature message signature public_key = c.verifier public_key (message ++ signature)
