-- ===== src/Server/Timing.antt =====
-- The times of server.hpp and client.cpp: a round of the heartbeat loop every KEEP_ALIVE_TIME seconds, and
-- a heartbeat of each client every third of that, rounded up. Histories carry times here, the newest event
-- first.
pub mod Latency
use dave_coin.Base.{ℕ, ◌+◌, ◌-◌, ◌/◌, ◌*◌, ◌≤◌, ◌<◌, ◌≡◌, ◌≢◌, ◌⊎◌, List, [], ◌∷◌, All, map}
use dave_coin.Bytes.{Bytes}
use dave_coin.Server.Spec.{Action, joins, beats, stays, ends_round}
use dave_coin.Tcp.{Tcp}

abbrev pub keep_alive_time : ℕ
keep_alive_time = 10

-- `ceil((float)KEEP_ALIVE_TIME/3.0)`
abbrev pub beat_period : ℕ
beat_period = (keep_alive_time + 2) / 3

module _ ⦃t : Tcp⦄ where
  abbrev pub Timed : Type 0
  Timed = List (ℕ × Action)

  abbrev pub untimed : Timed → List Action
  untimed [] = []
  untimed ((time, x) ∷ xs) = x ∷ untimed xs

  abbrev pub Contains : ℕ × Action → Timed → Type 0
  Contains e [] = ⊥
  Contains e (x ∷ xs) = (x ≡ e) ⊎ Contains e xs

  -- No event is older than those behind it.
  abbrev pub IsOrdered : Timed → Type 0
  IsOrdered [] = Unit
  IsOrdered ((time, x) ∷ xs) = All (λ e. e.0 ≤ time) xs × IsOrdered xs

  -- A round was at least KEEP_ALIVE_TIME before `time`.
  abbrev pub IsBefore : ℕ → ℕ × Action → Type 0
  IsBefore time (earlier, ends_round) = earlier + keep_alive_time ≤ time
  IsBefore time (earlier, joins client) = Unit
  IsBefore time (earlier, beats ip) = Unit
  IsBefore time (earlier, stays) = Unit

  -- The rounds are KEEP_ALIVE_TIME apart, the first of them is later than `first`, and each finds the
  -- heartbeats from `ip` that arrived before it; the k-th arrives at time `arrives k`.
  abbrev pub IsTimely : Bytes → ℕ → (ℕ → ℕ) → Timed → Type 0
  IsTimely ip first arrives [] = Unit
  IsTimely ip first arrives ((time, ends_round) ∷ xs) =
      (first < time)
      × All (IsBefore time) xs
      × ((k : ℕ) → arrives k < time → Contains (arrives k, beats ip) xs)
      × IsTimely ip first arrives xs
  IsTimely ip first arrives ((time, joins client) ∷ xs) = IsTimely ip first arrives xs
  IsTimely ip first arrives ((time, beats j) ∷ xs) = IsTimely ip first arrives xs
  IsTimely ip first arrives ((time, stays) ∷ xs) = IsTimely ip first arrives xs
