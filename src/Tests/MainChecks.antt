-- ===== src/Tests/MainChecks.antt =====
-- Key files, and the checks of jc.cpp with the keys in them.
use dave_coin.Base.{arith, ◌≡◌, ◌≢◌, ◌⊎◌, refl, true, false, if◌then◌else◌, [], ◌∷◌}
use dave_coin.Bytes.{Bytes, ok, throws, not_valid, open_error}
use dave_coin.Checks.{Chance, public_file, private_file, test_transactions}
use dave_coin.Checks.Pass.{test_transactions_passes}
use dave_coin.Crypto.Toy.{alice, bob, toy, toy_laws, toy_type, toy_type_laws, toy_dsa}
use dave_coin.Dict.{Dict, same_bytes, insert, before}
use dave_coin.Keys.{generate_keys, save_key, load_key}
use dave_coin.Keys.RoundTrip.{load_key-save_key}
use dave_coin.Tests.{memory}

load_key-save_key_example :
    (◌≡◌ true false × (save_key toy_type (λ f. true) public_file bob [] ≡ throws open_error))
    ⊎ ((files : Dict Bytes) × (save_key toy_type (λ f. true) public_file bob [] ≡ ok files)
        × ((j : Bytes)
            → load_key toy_type 0 j files ≡ (
                if same_bytes public_file j
                then (if true then ok bob else throws not_valid)
                else load_key toy_type 0 j [])))
load_key-save_key_example =
    load_key-save_key toy_type (λ f. true) 0 public_file bob [] toy_type_laws

abbrev pub chance : Chance
chance = record {
  load_public = 0;
  load_private = 0;
  generate = 3;
  check_private = 0;
  check_public = 0;
  sign = 0;
  now = 4;
  now0 = 5;
  now1 = 6;
  memory0 = memory;
  memory1 = memory;
}

abbrev one_file : Dict Bytes
one_file = (public_file, 48 ∷ 1 ∷ []) ∷ []

abbrev both_files : Dict Bytes
both_files = (private_file, 48 ∷ 1 ∷ []) ∷ one_file

public_saved : save_key toy_type (λ f. true) public_file alice [] ≡ ok one_file
unfolding save_key insert
public_saved = refl

private_saved : save_key toy_type (λ f. true) private_file alice one_file ≡ ok both_files
unfolding save_key insert same_bytes before
private_saved = refl

pub alice_made : generate_keys toy_dsa 2 0 0 ≡ ok (alice, alice)
unfolding generate_keys
alice_made = refl

pub bob_made : generate_keys toy_dsa 3 0 0 ≡ ok (bob, bob)
unfolding generate_keys
bob_made = refl

pub bob-other : bob ≢ alice
bob-other e = cc

test_transactions_passes_example : test_transactions toy_dsa chance both_files ≡ ok (true, true)
test_transactions_passes_example =
    test_transactions_passes toy_laws toy_dsa toy_type_laws toy_type_laws (λ f. true) 2 0 0 []
      chance alice_made public_saved private_saved refl refl bob_made bob-other (omega arith)
