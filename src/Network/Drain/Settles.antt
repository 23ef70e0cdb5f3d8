-- ===== src/Network/Drain/Settles.antt =====
-- The work of a network ends, in a network where all connections are mutual.
use dave_coin.Base.{ℕ, suc, ◌≤◌, ◌⊎◌, List, arith, inl, inr}
use dave_coin.Bytes.{Bytes}
use dave_coin.Network.{Net, Steps, and_one, IsActive, IsClient}
use dave_coin.Network.Drain.{Distinct, IsAmong, work, Works, no_work, and_work}
use dave_coin.Network.Drain.Shrinks.{Works-IsAmong}
use dave_coin.Network.Drain.Progress.{AllReachable, progress}
use dave_coin.Network.Mutual.{IsFresh, IsSettled, Steps-mutual}
use dave_coin.Tcp.{Tcp}

module _ ⦃t : Tcp⦄ where
  -- Let only nodes at finitely many addresses be concerned, and let there be a connected client for every
  -- address. A step of work is one in which a thread connects, a server accepts a connection, or a server
  -- handles a message; its effects may be more of these to do. Such steps are never more than the
  -- network's `work` when they begin, the sum of what its threads, arriving connections and messages
  -- cost. And as long as the network has not settled another one can be made: so work that goes on while
  -- it can ends in a settled network, in whatever order it is done.
  pub Works-end :
      (who : List Bytes) (net net' : Net) (n : ℕ)
      → Distinct who
      → AllReachable
      → IsAmong who net
      → Works net n net'
      → (n ≤ work who net) × (IsSettled net' ⊎ ((last : Net) × Works net (suc n) last))
  Works-end who net net' n d reachable h r =
      let (among, count) = Works-IsAmong who d net net' n h r in
      (
        omega (arith, count),
        elim (progress who net' reachable among) [
          | inl (last, s, is_work) ↦ inr (last, and_work r s is_work)
          | inr settled ↦ inl settled
        ],
      )

  pub Works-Steps :
      (first net net' : Net) (n : ℕ) → Steps first net → Works net n net' → Steps first net'
  Works-Steps first net _ _ steps no_work = steps
  Works-Steps first net _ _ steps (and_work {n} {mid} {last} r s is_work) =
      and_one (Works-Steps first net mid n steps r) s

  -- In a network that has settled a connection is mutual.
  pub settled_mutual :
      (first last : Net) (a b : Bytes)
      → IsFresh first
      → Steps first last
      → IsSettled last
      → IsActive a b last
      → IsActive b a last × IsClient a b last × IsClient b a last
  settled_mutual first last a b fresh steps settled active =
      let (both_ways, client) = Steps-mutual first last a b steps fresh settled in
      let back = both_ways.0 active in
      (back, client.0 active, (Steps-mutual first last b a steps fresh settled).1.0 back)
