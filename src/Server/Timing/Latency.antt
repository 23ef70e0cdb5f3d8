-- ===== src/Server/Timing/Latency.antt =====
-- How late a heartbeat may arrive.
use dave_coin.Base.{
  ℕ, ◌+◌, ◌-◌, ◌/◌, ◌*◌, ◌≤◌, ◌<◌, ◌≡◌, refl, sym, ap, subst, ◌∙◌, [], ◌∷◌, All, true, some, arith,
  inl, inr, Bool-cases, ltb,
}
use dave_coin.Bytes.{Bytes}
use dave_coin.Dict.{same_bytes, same_bytes_iff}
use dave_coin.Node.{Node}
use dave_coin.Server.Spec.{View, Action, joins, beats, stays, ends_round, act, act_all}
use dave_coin.Server.Spec.Refines.{view, actions, Reach-refines}
use dave_coin.Server.Steps.{Reach, IsConnected}
use dave_coin.Server.Timing.{
  keep_alive_time, beat_period, Timed, untimed, Contains, IsOrdered, IsBefore, IsTimely,
}
use dave_coin.Tcp.{Tcp}

-- A heartbeat that arrives between two rounds.
beat_between :
    (first late time : ℕ) (arrives : ℕ → ℕ)
    → late + beat_period < keep_alive_time
    → ((k : ℕ)
        → (first + beat_period * k ≤ arrives k) × (arrives k ≤ first + beat_period * k + late))
    → first + late < time
    → (k : ℕ) × (time < arrives k + keep_alive_time) × (arrives k < time)
beat_between first late time arrives soon h begun =
    elim (Bool-cases (ltb time (first + keep_alive_time))) [
      | inl y ↦ (0, ground (arith, h 0, y), ground (arith, h 0, y))
      | inr n ↦
          let k : ℕ = (time - keep_alive_time - first) / 4 + 1 in
          (k, ground (arith, h k, n), ground (arith, h k, n))
    ]

module _ ⦃t : Tcp⦄ where
  act-heard :
      (ip : Bytes) (x : Action) (v : View) (time time' : ℕ)
      → IsBefore time (time', x)
      → time < time' + keep_alive_time
      → v.was_heard ip ≡ true
      → (act x v).was_heard ip ≡ true
  unfolding act
  act-heard ip (joins client) v time time' b l h =
      rw h (elim (Bool-cases (same_bytes (t.get_ip client) ip)) [
        | inl y ↦ rw y refl
        | inr n ↦ rw n refl
      ])
  act-heard ip (beats j) v time time' b l h =
      rw h (elim (Bool-cases (same_bytes j ip)) [ inl y ↦ rw y refl | inr n ↦ rw n refl ])
  act-heard ip stays v time time' b l h = h
  act-heard ip ends_round v time time' b l h = absurd (omega arith)

  act-beats : (ip : Bytes) (v : View) → (act (beats ip) v).was_heard ip ≡ true
  unfolding act
  act-beats ip v = ground (arith, same_bytes_iff ip ip)

  Contains-le :
      (e : ℕ × Action) (time : ℕ) (xs : Timed)
      → All (λ d. d.0 ≤ time) xs
      → Contains e xs
      → e.0 ≤ time
  Contains-le e time [] h there = absurd there
  Contains-le e time (x ∷ xs) (h, hs) (inl same) =
      subst (λ n. n ≤ time) (ap (λ (d : ℕ × Action). d.0) same) h
  Contains-le e time (x ∷ xs) (h, hs) (inr there) = Contains-le e time xs hs there

  -- A heartbeat that came after the last round counts.
  Contains-heard :
      (ip : Bytes) (at time : ℕ) (xs : Timed) (v : View)
      → IsOrdered xs
      → All (IsBefore time) xs
      → time < at + keep_alive_time
      → Contains (at, beats ip) xs
      → (act_all (untimed xs) v).was_heard ip ≡ true
  unfolding act_all
  Contains-heard ip at time [] v ordered bs late there = absurd there
  Contains-heard ip at time ((time', x) ∷ xs) v (before, ordered) (b, bs) late (inl e) =
      subst (λ y. (act y (act_all (untimed xs) v)).was_heard ip ≡ true)
        (sym (ap (λ (d : ℕ × Action). d.1) e)) (act-beats ip (act_all (untimed xs) v))
  Contains-heard ip at time ((time', x) ∷ xs) v (before, ordered) (b, bs) late (inr there) =
      act-heard ip x (act_all (untimed xs) v) time time' b
        (omega (arith, late, Contains-le (at, beats ip) time' xs before there))
        (Contains-heard ip at time xs v ordered bs late there)

  abbrev IsAt : Bytes → View → Type 0
  IsAt ip v = (client : t.Client) × (v.client_at ip ≡ some client)

  act-IsAt :
      (ip : Bytes) (client : t.Client) (v : View) → IsAt ip v → IsAt ip (act (joins client) v)
  unfolding act
  act-IsAt ip client v (x, h) = elim (Bool-cases (same_bytes (t.get_ip client) ip)) [
    | inl y ↦ (client, rw y refl)
    | inr n ↦ (x, rw (n, h) refl)
  ]

  ends_round-IsAt :
      (ip : Bytes) (v : View) → v.was_heard ip ≡ true → IsAt ip v → IsAt ip (act ends_round v)
  unfolding act
  ends_round-IsAt ip v heard (x, h) = (x, rw (heard, h) refl)

  timely-IsAt :
      (ip : Bytes) (first late : ℕ) (arrives : ℕ → ℕ) (xs : Timed) (v : View)
      → late + beat_period < keep_alive_time
      → ((k : ℕ)
          → (first + beat_period * k ≤ arrives k) × (arrives k ≤ first + beat_period * k + late))
      → IsOrdered xs
      → IsTimely ip (first + late) arrives xs
      → IsAt ip v
      → IsAt ip (act_all (untimed xs) v)
  unfolding act_all act
  timely-IsAt ip first late arrives [] v soon h ordered timely there = there
  timely-IsAt ip first late arrives ((time, joins client) ∷ xs) v soon h (_, ordered) timely there =
      act-IsAt ip client (act_all (untimed xs) v)
        (timely-IsAt ip first late arrives xs v soon h ordered timely there)
  timely-IsAt ip first late arrives ((time, beats j) ∷ xs) v soon h (_, ordered) timely there =
      timely-IsAt ip first late arrives xs v soon h ordered timely there
  timely-IsAt ip first late arrives ((time, stays) ∷ xs) v soon h (_, ordered) timely there =
      timely-IsAt ip first late arrives xs v soon h ordered timely there
  timely-IsAt ip first late arrives ((time, ends_round) ∷ xs) v soon h (_, ordered)
        (begun, spaced, finds, timely) there =
      let (k, recent, came) = beat_between first late time arrives soon h begun in
      ends_round-IsAt ip (act_all (untimed xs) v)
        (Contains-heard ip (arrives k) time xs v ordered spaced recent (finds k came))
        (timely-IsAt ip first late arrives xs v soon h ordered timely there)

  -- A client at `ip` that sends heartbeats every ceil(KEEP_ALIVE_TIME/3) seconds from `first` on, each of which the
  -- server handles at most `late` seconds after it was sent, keeps its place through any history of the
  -- server whose rounds are KEEP_ALIVE_TIME seconds apart and start when the first heartbeat has arrived,
  -- as long as `late` and the period together are less than KEEP_ALIVE_TIME: up to 5 seconds.
  pub timely-IsConnected :
      (ip : Bytes) (first late : ℕ) (arrives : ℕ → ℕ) (xs : Timed) {a b : Node} (r : Reach a b)
      → untimed xs ≡ actions r
      → late + beat_period < keep_alive_time
      → ((k : ℕ)
          → (first + beat_period * k ≤ arrives k) × (arrives k ≤ first + beat_period * k + late))
      → IsOrdered xs
      → IsTimely ip (first + late) arrives xs
      → IsConnected ip a
      → IsConnected ip b
  unfolding view
  timely-IsConnected ip first late arrives xs {a} {b} r same soon h ordered timely there =
      subst (IsAt ip) (ap (λ l. act_all l (view a)) same ∙ sym (Reach-refines r))
        (timely-IsAt ip first late arrives xs (view a) soon h ordered timely there)
