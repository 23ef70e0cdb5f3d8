-- ===== src/Bytes.antt =====
-- Bytes in memory and the C++ idioms that read and write them: `stream.write` of an integer's bytes,
-- `*reinterpret_cast<const uint32_t *>(&data[cr])`, and `std::string(&data[cr], n)`, on a little-endian
-- machine that allows unaligned loads (x86-64), over a string's `c_str()`.
pub mod Reads
pub mod Ensures
pub mod Short
pub mod Formats
use dave_coin.Base.{
  ℕ, zero, suc, ◌+◌, ◌*◌, ◌/◌, ◌%◌, ◌≡◌, refl, List, [], ◌∷◌, ◌++◌, Option, none, some, drop,
}

abbrev pub Bytes : Type 0
Bytes = List ℕ

-- The bytes of a `width`-byte unsigned integer, lowest first; what does not fit is cut off.
unfoldable pub to_le : ℕ → ℕ → Bytes
to_le zero n = []
to_le (suc width) n = (n % 256) ∷ to_le width (n / 256)

-- The first `width` bytes as an unsigned integer.
unfoldable pub from_le : ℕ → Bytes → Option ℕ
from_le zero bs = some 0
from_le (suc width) [] = none
from_le (suc width) (b ∷ bs) = elim (from_le width bs) [ none ↦ none | some n ↦ some (b + 256 * n) ]

-- The first `n` bytes.
unfoldable pub front : ℕ → Bytes → Option Bytes
front zero bs = some []
front (suc n) [] = none
front (suc n) (b ∷ bs) = elim (front n bs) [ none ↦ none | some cs ↦ some (b ∷ cs) ]

-- `s.c_str()`: the bytes that may be read are those of the string and the null behind them.
unfoldable pub c_str : Bytes → Bytes
c_str s = s ++ 0 ∷ []

-- The exceptions that the modelled code throws.
pub data Error : Type 0 where
  -- Crypto++ refuses a key's bytes.
  ber_error : Error
  -- `std::runtime_error` with its message, and `std::out_of_range` of `substr`.
  not_verified no_inputs no_outputs to_myself : Error
  out_of_range not_accepted : Error
  not_generated not_valid : Error
  no_server no_socket not_connected no_name no_peers : Error
  -- Crypto++ cannot open a file.
  open_error : Error

-- How a call ends. `fault` is a read past the end of the buffer, which C++ leaves undefined.
pub data Outcome {ℓ} (A : Type ℓ) : Type ℓ where
  ok : A → Outcome A
  throws : Error → Outcome A
  fault : Outcome A

-- Code that reads memory at a cursor and moves the cursor: `data` and `*cr` in the decoders.
abbrev pub Reader {ℓ} : Type ℓ → Type ℓ
Reader A = Bytes → ℕ → Outcome (A × ℕ)

-- Shut, so that a decoder's steps stay apart in proofs.
unfoldable pub return {ℓ} : {A : Type ℓ} → A → Reader A
return a mem cr = ok (a, cr)

abbrev pub after {ℓ κ} :
    {A : Type ℓ} {B : Type κ} → (A → Reader B) → Bytes → Outcome (A × ℕ) → Outcome (B × ℕ)
after f mem (ok (a, cr)) = f a mem cr
after f mem (throws e) = throws e
after f mem fault = fault

infixl 5 ◌>>=◌
unfoldable pub ◌>>=◌ {ℓ κ} : {A : Type ℓ} {B : Type κ} → Reader A → (A → Reader B) → Reader B
◌>>=◌ m f mem cr = after f mem (m mem cr)

abbrev pub or_fault : Option ℕ → ℕ → Outcome (ℕ × ℕ)
or_fault none cr = fault
or_fault (some n) cr = ok (n, cr)

abbrev pub or_fault_bytes : Option Bytes → ℕ → Outcome (Bytes × ℕ)
or_fault_bytes none cr = fault
or_fault_bytes (some bs) cr = ok (bs, cr)

-- `*reinterpret_cast<const uintN_t *>(&data[*cr]); *cr += width;`
unfoldable pub load : ℕ → Reader ℕ
load width mem cr = or_fault (from_le width (drop cr mem)) (cr + width)

-- `std::string(&data[*cr], n); *cr += n;`
unfoldable pub load_bytes : ℕ → Reader Bytes
load_bytes n mem cr = or_fault_bytes (front n (drop cr mem)) (cr + n)

-- `for (int i = 0; i < n; i++) out.push_back(Decode(serial, cr));`
unfoldable pub many {ℓ} : {A : Type ℓ} → Reader A → ℕ → Reader (List A)
many m zero = return []
many m (suc n) = do a ← m; rest ← many m n; return (a ∷ rest)

abbrev pub result {ℓ} : {A : Type ℓ} → Outcome (A × ℕ) → Outcome A
result (ok (a, cr)) = ok a
result (throws e) = throws e
result fault = fault

-- A decoder called with no cursor: `cr_dummy` starts at 0 and is dropped at the end.
unfoldable pub run {ℓ} : {A : Type ℓ} → Reader A → Bytes → Outcome A
unfolding c_str return ◌>>=◌
run m serial = result (m (c_str serial) 0)
