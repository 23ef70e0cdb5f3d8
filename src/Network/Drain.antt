-- ===== src/Network/Drain.antt =====
-- The work that the requests of a network still make: threads that connect, connections that wait to be
-- accepted, and messages on their way, some of which make new requests.
pub mod Sums
pub mod Among
pub mod Costs
pub mod Shrinks
pub mod Progress
pub mod Settles
use dave_coin.Base.{ℕ, suc, ◌+◌, ◌≡◌, ◌≢◌, List, [], ◌∷◌, Bool, if◌then◌else◌, length, All, Any}
use dave_coin.Bytes.{Bytes}
use dave_coin.Client.{is_active}
use dave_coin.Network.{Net, Letter, Step, requests, establishes, accepts, sends, delivers, rounds}
use dave_coin.Node.{Node}
use dave_coin.Tcp.{Tcp}

abbrev pub sum_of {ℓ} : {A : Type ℓ} → (A → ℕ) → List A → ℕ
sum_of f [] = 0
sum_of f (x ∷ xs) = f x + sum_of f xs

abbrev pub IsIn : Bytes → List Bytes → Type 0
IsIn ip ips = Any (λ j. j ≡ ip) ips

-- No address stands there twice.
abbrev pub Distinct : List Bytes → Type 0
Distinct [] = Unit
Distinct (j ∷ js) = All (λ i. j ≢ i) js × Distinct js

-- Which node has a connection to which.
abbrev pub Acts : Type 0
Acts = Bytes → Bytes → Bool

-- What a thread of `y` that connects to `x` costs: its own end, the arrival, and the poke, which asks
-- for a connection in turn if `x` has none to `y`.
abbrev pub dial_cost : Acts → Bytes → Bytes → ℕ
dial_cost act y x = if act x y then 3 else 6

-- What a message costs, if it is a poke: its delivery, and the thread that it asks for if there is no connection.
abbrev pub letter_cost : Acts → Letter → ℕ
letter_cost act l = if act l.to l.from then 1 else if act l.from l.to then 4 else 7

module _ ⦃t : Tcp⦄ where
  abbrev pub acts : (Bytes → Node) → Acts
  acts nodes x y = is_active y (nodes x).active_clients

  -- What the threads of a node at `y` cost.
  abbrev pub dials : Acts → Bytes → Node → ℕ
  dials act y node = sum_of (dial_cost act y) node.connecting

  -- The costs of all that is left, at the connections `act` and the addresses `who`.
  abbrev pub work_at : Acts → List Bytes → Net → ℕ
  work_at act who net =
      sum_of (letter_cost act) net.flight
      + length net.arriving
      + sum_of (λ y. dials act y (net.nodes y)) who

  abbrev pub work : List Bytes → Net → ℕ
  work who net = work_at (acts net.nodes) who net

  -- Only nodes at the addresses `who` connect or send to each other, or have done so.
  pub record IsAmong (who : List Bytes) (net : Net) : Type 0 where
    pub dialers : (y : Bytes) → All (λ x. IsIn y who × IsIn x who) (net.nodes y).connecting
    pub arrivals : All (λ (e : Bytes × Bytes). IsIn e.0 who × IsIn e.1 who) net.arriving
    pub letters : All (λ (l : Letter). IsIn l.from who × IsIn l.to who) net.flight

  -- A step that does what was asked for, without a new request from outside.
  abbrev pub IsWork : {net net' : Net} → Step net net' → Type 0
  IsWork (requests a b) = ⊥
  IsWork (establishes a b node some_thread e) = Unit
  IsWork (accepts a b node before behind client tserver e same h) = Unit
  IsWork (sends letter) = ⊥
  IsWork (delivers letter node before behind client e same h) = Unit
  IsWork (rounds b all_heard) = ⊥

  -- So many such steps.
  pub data Works (net : Net) : ℕ → Net → Type 0 where
    no_work : Works net 0 net
    and_work :
        {n : ℕ} {mid last : Net} (r : Works net n mid) (s : Step mid last)
        → IsWork s
        → Works net (suc n) last
