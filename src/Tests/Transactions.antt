-- ===== src/Tests/Transactions.antt =====
-- Runs of the transaction code on concrete transactions.
use dave_coin.Base.{if◌then◌else◌, ◌≡◌, refl, [], ◌∷◌, ◌++◌, true, ◌≢◌, ◌↔◌, All, arith}
use dave_coin.Bytes.{to_le, ok, throws, ber_error, not_verified, run}
use dave_coin.Crypto.Toy.{Person, alice, bob, toy, toy_laws}
use dave_coin.Sig.{sign_message, calculate_sha256, validate_signature}
use dave_coin.Tx.{Tx, pays, serialize, decode, verify, decode_and_verify, construct_and_sign}
use dave_coin.Tx.Input
use dave_coin.Tx.Output
use dave_coin.Tx.Output.{parse_key}
use dave_coin.Tx.Fields.{low_coins}
use dave_coin.Tx.RoundTrip.{decode-serialize_one, decode-serialize_many}
use dave_coin.Tx.Construct.{construct_and_sign_iff}
use dave_coin.Tx.Signing.{
  decode_and_verify-serialize, decode_and_verify-construct_and_sign, decode_and_verify_sound,
  decode_and_verify_result,
}
use dave_coin.Tests.{
  some_input, some_input_fits, to_bob, to_bob_fits, sent, sent_fits, split, split_fits, fortune,
  rich, rich_fits,
}

sent_made : construct_and_sign 7 0 (some_input ∷ []) (to_bob ∷ []) alice alice ≡ ok sent
unfolding construct_and_sign pays calculate_sha256 sign_message
sent_made = refl

sent_hash : sent.hash ≡ calculate_sha256 (serialize sent)
unfolding serialize calculate_sha256
sent_hash = refl

sent_verifies : verify sent ≡ true
unfolding verify validate_signature serialize calculate_sha256 to_le Input.serialize
    Output.serialize
sent_verifies = refl

decode-serialize_one_example :
    run (decode (serialize rich)) (serialize rich)
    ≡ ok (record rich {
      hash = calculate_sha256 (serialize rich);
      sig = [];
      outputs = low_coins fortune ∷ [];
    })
decode-serialize_one_example = decode-serialize_one toy_laws rich fortune rich_fits refl

decode-serialize_many_example : run (decode (serialize split)) (serialize split) ≡ throws ber_error
decode-serialize_many_example =
    decode-serialize_many toy_laws split to_bob to_bob [] split_fits refl (omega arith)

construct_and_sign_iff_example :
    ((t : Tx Person) × (construct_and_sign 7 0 (some_input ∷ []) (to_bob ∷ []) alice alice ≡ ok t))
    ↔ ((some_input ∷ [] ≢ []) × (to_bob ∷ [] ≢ []) × All (λ o. o.target ≢ alice) (to_bob ∷ []))
construct_and_sign_iff_example =
    construct_and_sign_iff toy_laws 7 0 (some_input ∷ []) (to_bob ∷ []) alice alice

decode_and_verify-construct_and_sign_example :
    decode_and_verify (serialize sent) sent.sig alice ≡ ok sent
decode_and_verify-construct_and_sign_example =
    decode_and_verify-construct_and_sign toy_laws 7 0 (some_input ∷ []) to_bob alice (omega arith)
      (some_input_fits, tt) to_bob_fits (omega arith) sent_made

sent_accepted : decode_and_verify (serialize sent) (1 ∷ []) alice ≡ ok sent
sent_accepted =
    decode_and_verify-serialize toy_laws sent sent_fits (omega arith) sent_hash sent_verifies

decode_and_verify_sound_example :
    (validate_signature (serialize sent ++ calculate_sha256 (serialize sent)) (1 ∷ []) alice ≡ true)
    × (sent.hash ≡ calculate_sha256 (serialize sent))
    × (sent.sig ≡ 1 ∷ [])
decode_and_verify_sound_example =
    decode_and_verify_sound (serialize sent) (1 ∷ []) alice sent_accepted

-- Alice's transaction, signed by Bob, under Bob's key.
decode_and_verify_result_example : decode_and_verify (serialize sent) (2 ∷ []) bob ≡ (
    if validate_signature (serialize sent ++ calculate_sha256 (serialize sent)) (2 ∷ []) bob
    then ok (record sent { hash = calculate_sha256 (serialize sent); sig = 2 ∷ [] })
    else throws not_verified)
decode_and_verify_result_example =
    decode_and_verify_result toy_laws sent (2 ∷ []) bob sent_fits (omega arith)
