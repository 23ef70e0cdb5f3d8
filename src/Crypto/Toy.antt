-- ===== src/Crypto/Toy.antt =====
-- A small instance of the Crypto++ interface, with its laws: two key pairs, a checksum in place of
-- SHA256, and a signature of one byte. It shows that the laws can hold, and runs in the tests.
use dave_coin.Base.{
  ℕ, ◌+◌, ◌%◌, ◌≡◌, refl, ◌↔◌, [], ◌∷◌, ◌++◌, Bool, true, false, Option, none, some, arith, ◌==◌,
  if◌then◌else◌, replicate,
}
use dave_coin.Bytes.{Bytes}
use dave_coin.Crypto.{Crypto, Laws, KeyType, KeyLaws, Dsa}

pub data Person : Type 0 where
  alice bob : Person

abbrev tag : Person → ℕ
tag alice = 1
tag bob = 2

abbrev person : ℕ → Option Person
person n = if n == 1 then some alice else if n == 2 then some bob else none

-- The tag is behind the byte of a DER sequence.
abbrev parse : Bytes → Option Person
parse [] = none
parse (der ∷ []) = none
parse (der ∷ n ∷ rest) = person n

abbrev same : Person → Person → Bool
same alice alice = true
same alice bob = false
same bob alice = false
same bob bob = true

abbrev total : Bytes → ℕ
total [] = 0
total (b ∷ bs) = b + total bs

abbrev last_byte : ℕ → Bytes → ℕ
last_byte d [] = d
last_byte d (b ∷ bs) = last_byte b bs

instance abbrev pub toy : Crypto
toy = record {
  PublicKey = Person;
  PrivateKey = Person;
  default_key = alice;
  save = λ k. 48 ∷ tag k ∷ [];
  ber_decode = parse;
  key_eq = same;
  public_of = λ k. k;
  sha256 = λ bs. (total bs % 256) ∷ replicate 31 0;
  signer = λ rng k m. tag k ∷ [];
  verifier = λ k bs. last_byte 0 bs == tag k;
}

last_byte-append : (d n : ℕ) (m : Bytes) → last_byte d (m ++ n ∷ []) ≡ n
last_byte-append d n [] = refl
last_byte-append d n (b ∷ m) = last_byte-append b n m

parse-save : (k : Person) → parse (48 ∷ tag k ∷ []) ≡ some k
parse-save alice = refl
parse-save bob = refl

same_iff : (a b : Person) → (same a b ≡ true) ↔ (a ≡ b)
same_iff alice alice = (λ _. refl, λ _. refl)
same_iff alice bob = (λ e. cc, λ e. cc)
same_iff bob alice = (λ e. cc, λ e. cc)
same_iff bob bob = (λ _. refl, λ _. refl)

signed : (k : Person) (m : Bytes) → (last_byte 0 (m ++ tag k ∷ []) == tag k) ≡ true
signed k m = ground (arith, last_byte-append 0 (tag k) m)

pub toy_laws : Laws
toy_laws = record {
  ber_decode-save = parse-save;
  ber_decode_nil = refl;
  save_fits = λ k. omega arith;
  key_eq_iff = same_iff;
  verifier-signer = λ rng k m. signed k m;
}

abbrev pub toy_type : KeyType Person
toy_type = record { write = λ k. 48 ∷ tag k ∷ []; read = parse; validate = λ rng k. true }

pub toy_type_laws : KeyLaws toy_type
toy_type_laws = record { read-write = parse-save }

-- An even draw generates one key, an odd draw the other.
abbrev drawn : ℕ → Person
drawn n = if n % 2 == 0 then alice else bob

abbrev pub toy_dsa : Dsa
toy_dsa = record { generate = drawn; public_type = toy_type; private_type = toy_type }
