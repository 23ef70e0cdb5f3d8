-- ===== src/Network/Drain/Shrinks.antt =====
-- Every step of work leaves less of it, and so the work ends.
use dave_coin.Base.{
  drop, ℕ, ◌+◌, ◌<◌, ◌≤◌, ◌≡◌, sym, ap, subst, ◌∙◌, List, [], ◌∷◌, ◌++◌, false, arith, length,
  length-append, All, inl, inr,
}
use dave_coin.Bytes.{Bytes, ok}
use dave_coin.Client.{is_active}
use dave_coin.Client.Dedup.{pending}
use dave_coin.Dict.{same_bytes_refl}
use dave_coin.Network.{
  Net, Letter, put, letters, after_establishing, Step, requests, establishes, accepts, sends,
  delivers, rounds,
}
use dave_coin.Network.Calm.{accept-KeepsClient, accept-elim, receive_message-elim}
use dave_coin.Network.Establish.{
  established, connected_to, active_clients-connected, connecting-connected, established-active,
  is_active-append_old,
}
use dave_coin.Network.Drain.{
  sum_of, IsIn, Distinct, dial_cost, letter_cost, acts, work, IsAmong, IsWork, Works, no_work,
  and_work,
}
use dave_coin.Network.Drain.Sums.{sum_of-append, sum_of-middle}
use dave_coin.Network.Drain.Among.{
  All-middle, All-append, All-pending, All-finished, Asks, connect_to_server-Asks, put-IsAmong,
}
use dave_coin.Network.Drain.Costs.{
  poke_cost, some_cost, thread_cost, sum_of-finished, put-work, sent-elim,
}
use dave_coin.Node.{Node}
use dave_coin.Server.{accept, receive_message}
use dave_coin.Tcp.{Tcp}

module _ ⦃t : Tcp⦄ (who : List Bytes) (d : Distinct who) where
  -- There is less work, for the same nodes.
  pub record Shrinks (net net' : Net) : Type 0 where
    pub among : IsAmong who net'
    pub less : work who net' < work who net

  establishes-Shrinks :
      (a b : Bytes) (net : Net)
      → IsAmong who net
      → 0 < pending b (net.nodes a).connecting
      → Shrinks net (established a b net)
  establishes-Shrinks a b net h some_thread =
      let old = net.nodes a in
      let act = acts (put a (connected_to a b old) net.nodes) in
      let (ia, ib) =
        All-pending (λ x. IsIn a who × IsIn x who) b old.connecting some_thread (h.dialers a) in
      record {
        among =
            put-IsAmong who net a (connected_to a b old) _ _
              (subst (All (λ x. IsIn a who × IsIn x who)) (sym (connecting-connected a b old))
                (All-finished _ b old.connecting (h.dialers a)))
              ((ia, ib), h.arrivals)
              (All-append _ _ net.flight
                (sent-elim
                  (λ es. All (λ (l : Letter). IsIn l.from who × IsIn l.to who) (letters a es)) a b
                  old tt ((ia, ib), tt))
                h.letters)
              h;
        less =
            put-work who net a (connected_to a b old) ((a, b) ∷ net.arriving)
              (established a b net).flight d ia
              (λ y z.
                ap (is_active y) (active_clients-connected a b old) ∙ is_active-append_old y _ _ z)
              (omega (
                arith,
                sum_of-append (letter_cost act)
                    (letters a (drop (length old.sent) (connected_to a b old).sent)) net.flight,
                sent-elim
                    (λ es.
                      sum_of (letter_cost act) (letters a es)
                      ≤ letter_cost act (record { from = a; to = b; raw = [] }))
                    a b old (omega arith) (omega arith),
                thread_cost act (record { from = a; to = b; raw = [] })
                    (established-active a b net),
                ap (sum_of (dial_cost act a)) (connecting-connected a b old),
                sum_of-finished (dial_cost act a) b old.connecting some_thread,
              ));
      }

  accepts-Shrinks :
      (a b : Bytes) (net : Net) (node : Node) (before behind : List (Bytes × Bytes))
      (client : t.Client) (tserver : t.Server)
      → IsAmong who net
      → net.arriving ≡ before ++ (a, b) ∷ behind
      → accept client tserver (net.nodes b) ≡ ok node
      → Shrinks net (record net { nodes = put b node net.nodes; arriving = before ++ behind })
  accepts-Shrinks a b net node before behind client tserver h e returned =
      let old = net.nodes b in
      let same : node.connecting ≡ old.connecting =
        accept-elim (λ n. n.connecting ≡ old.connecting) client old (λ n _ c. c) tserver node
          returned in
      let ((ia, ib), rest) = All-middle _ before behind (a, b) (subst (All _) e h.arrivals) in
      record {
        among =
            put-IsAmong who net b node _ _
              (subst (All (λ x. IsIn b who × IsIn x who)) (sym same) (h.dialers b)) rest h.letters
              h;
        less =
            put-work who net b node _ _ d ib
              (λ y z.
                ap (is_active y) (accept-KeepsClient client tserver old node returned).same_active
                ∙ z)
              (omega (
                arith,
                ap length e,
                length-append before ((a, b) ∷ behind),
                length-append before behind,
                ap (sum_of (dial_cost (acts (put b node net.nodes)) b)) same,
              ));
      }

  delivers-Shrinks :
      (letter : Letter) (net : Net) (node : Node) (before behind : List Letter) (client : t.Client)
      → IsAmong who net
      → net.flight ≡ before ++ letter ∷ behind
      → t.get_ip client ≡ letter.from
      → receive_message client letter.raw (net.nodes letter.to) ≡ ok node
      → Shrinks net (record net { nodes = put letter.to node net.nodes; flight = before ++ behind })
  delivers-Shrinks letter net node before behind client h e same returned =
      let w = letter.to in
      let old = net.nodes w in
      let act = acts (put w node net.nodes) in
      let asks : Asks letter.from old node =
        subst (λ ip. Asks ip old node) same
          (receive_message-elim (Asks (t.get_ip client) old) client old
            (λ _ a c. record { active_kept = a; asked = inl c }) letter.raw node
            (connect_to_server-Asks (t.get_ip client) old) returned) in
      let ((ifrom, ito), rest) = All-middle _ before behind letter (subst (All _) e h.letters) in
      let inactive : is_active letter.from old.active_clients ≡ false → act w letter.from ≡ false =
        λ n. rw (same_bytes_refl w) (ap (is_active letter.from) asks.active_kept ∙ n) in
      let cost = sum_of-middle (letter_cost act) before behind letter in
      let all = ap (sum_of (letter_cost act)) e in
      record {
        among =
            put-IsAmong who net w node net.arriving (before ++ behind)
              (elim asks.asked [
                | inl c ↦ subst (All (λ x. IsIn w who × IsIn x who)) (sym c) (h.dialers w)
                | inr (n, c) ↦ subst (All (λ x. IsIn w who × IsIn x who)) (sym c) (
                    All-append _ old.connecting (letter.from ∷ []) (h.dialers w) ((ito, ifrom), tt))
              ])
              h.arrivals rest h;
        less =
            put-work who net w node net.arriving (before ++ behind) d ito
              (λ y z. ap (is_active y) asks.active_kept ∙ z)
              (elim asks.asked [
                | inl c ↦
                    omega (arith, cost, all, some_cost act letter, ap (sum_of (dial_cost act w)) c)
                | inr (n, c) ↦ omega (
                  arith,
                  cost,
                  all,
                  poke_cost act letter (inactive n),
                  ap (sum_of (dial_cost act w)) c,
                  sum_of-append (dial_cost act w) old.connecting (letter.from ∷ []),
                )
              ]);
      }

  Step-Shrinks :
      (net net' : Net) (s : Step net net') → IsWork s → IsAmong who net → Shrinks net net'
  Step-Shrinks net net' (requests a b) work h = absurd work
  Step-Shrinks net net' (establishes a b node some_thread e) work h =
      subst (λ n. Shrinks net (after_establishing a b net n)) (sym e)
        (establishes-Shrinks a b net h some_thread)
  Step-Shrinks net net' (accepts a b node before behind client tserver e same returned) work h =
      accepts-Shrinks a b net node before behind client tserver h e returned
  Step-Shrinks net net' (sends letter) work h = absurd work
  Step-Shrinks net net' (delivers letter node before behind client e same returned) work h =
      delivers-Shrinks letter net node before behind client h e same returned
  Step-Shrinks net net' (rounds b all_heard) work h = absurd work

  pub Works-IsAmong :
      (net net' : Net) (n : ℕ)
      → IsAmong who net
      → Works net n net'
      → IsAmong who net' × (n + work who net' ≤ work who net)
  Works-IsAmong net _ _ h no_work = (h, omega arith)
  Works-IsAmong net _ _ h (and_work {n} {mid} {last} r s is_work) =
      let (among, count) = Works-IsAmong net mid n h r in
      let shrinks = Step-Shrinks mid last s is_work among in
      (shrinks.among, omega (arith, count, shrinks.less))
