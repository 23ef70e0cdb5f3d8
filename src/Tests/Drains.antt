-- ===== src/Tests/Drains.antt =====
-- Home connects to away.
use dave_coin.Base.{ap, ◌≤◌, ◌⊎◌, refl, List, [], ◌∷◌, All, inl, inr, arith}
use dave_coin.Bytes.{Bytes}
use dave_coin.Network.{Net}
use dave_coin.Network.Drain.{sum_of, IsIn, Distinct, IsAmong, work, Works, no_work, and_work}
use dave_coin.Network.Drain.Progress.{AllReachable}
use dave_coin.Network.Drain.Settles.{Works-end}
use dave_coin.Network.Mutual.{IsSettled}
use dave_coin.Network.Puts.{put-elim}
use dave_coin.Tests.Hub.{home, away, log_tcp}
use dave_coin.Tests.Networks.{blank, dialing, net0, net1, call}

abbrev pub both : List Bytes
both = home ∷ away ∷ []

pub both-Distinct : Distinct both
both-Distinct = ((λ e. omega (arith, ap (sum_of (λ b. b)) e), tt), (tt, tt))

pub reachable : AllReachable
reachable ip = (ip, refl, refl)

pub home_in : IsIn home both
home_in = inl refl

pub away_in : IsIn away both
away_in = inr (inl refl)

net0-IsAmong : IsAmong both net0
net0-IsAmong = record {
  dialers = λ y.
      put-elim (λ j n. All (λ x. IsIn j both × IsIn x both) n.connecting) home dialing (λ j. blank)
        y ((home_in, away_in), tt) (λ _. tt);
  arrivals = tt;
  letters = tt;
}

Works-end_example : (1 ≤ work both net0) × (IsSettled net1 ⊎ ((last : Net) × Works net0 2 last))
Works-end_example =
    Works-end both net0 net1 1 both-Distinct reachable net0-IsAmong (and_work no_work call tt)
