-- ===== src/Tests/Forgeries.antt =====
-- A signed transaction, and what its bytes and its signature are known to be.
use dave_coin.Base.{true, ◌≡◌, ◌≢◌, ◌⊎◌, refl, [], ◌∷◌, ◌++◌, arith, All, Any}
use dave_coin.Bytes.{ok}
use dave_coin.Crypto.Toy.{Person, alice, toy, toy_laws}
use dave_coin.Sig.{calculate_sha256, sign_message, validate_signature}
use dave_coin.Tx.{Tx, serialize, pays, construct_and_sign, decode_and_verify}
use dave_coin.Tx.Authentic.{MadeWith, signed_message, decode_and_verify_authentic}
use dave_coin.Tx.Signing.{decode_and_verify-construct_and_sign}
use dave_coin.Tests.{some_input, some_input_fits, to_bob, to_bob_fits, sent}

sent_made_here : construct_and_sign 7 0 (some_input ∷ []) (to_bob ∷ []) alice alice ≡ ok sent
unfolding construct_and_sign pays calculate_sha256 sign_message
sent_made_here = refl

sent-MadeWith : MadeWith alice sent
sent-MadeWith = record {
  now = 7;
  rng = 0;
  given = some_input ∷ [];
  output = to_bob;
  few = omega arith;
  given_fit = (some_input_fits, tt);
  output_fits = to_bob_fits;
  few_coins = omega arith;
  made = sent_made_here;
}

sent_arrives : decode_and_verify (serialize sent) sent.sig alice ≡ ok sent
sent_arrives =
    decode_and_verify-construct_and_sign toy_laws 7 0 (some_input ∷ []) to_bob alice (omega arith)
      (some_input_fits, tt) to_bob_fits (omega arith) sent_made_here

decode_and_verify_authentic_example :
    Any
      (λ (u : Tx Person).
        (serialize sent ≡ serialize u) × (u.origin ≡ alice) × (sent ≡ record u { sig = sent.sig }))
      (sent ∷ [])
    ⊎ (All
          (λ (u : Tx Person).
            serialize sent ++ calculate_sha256 (serialize sent) ≢ signed_message u)
          (sent ∷ [])
        × (validate_signature (serialize sent ++ calculate_sha256 (serialize sent)) sent.sig alice
            ≡ true))
decode_and_verify_authentic_example =
    decode_and_verify_authentic toy_laws alice (sent ∷ []) (serialize sent) sent.sig
      (λ d. unfold calculate_sha256 in refl) (sent-MadeWith, tt) sent_arrives
