-- ===== src/Network/Drain/Progress.antt =====
-- As long as a network has not settled, there is a step of work.
use dave_coin.Base.{
  ◌<◌, ◌≡◌, refl, sym, ap, subst, ◌∙◌, ◌⊎◌, List, [], ◌∷◌, ◌++◌, true, arith, Any, inl, inr,
  Bool-cases, ◌==◌,
}
use dave_coin.Bytes.{Bytes, ok}
use dave_coin.Client.{initialize_client_connection}
use dave_coin.Client.Dedup.{pending}
use dave_coin.Dict.{same_bytes_refl}
use dave_coin.Network.{Net, Letter, IsPoke, Step, establishes, accepts, delivers}
use dave_coin.Network.Drain.{IsIn, IsAmong, IsWork}
use dave_coin.Network.Drain.Among.{All-pending}
use dave_coin.Network.Moves.{receive_message-header_poke}
use dave_coin.Network.Mutual.{IsSettled}
use dave_coin.Node.{Node}
use dave_coin.Packet.{read_header, client_poke}
use dave_coin.Packet.Header.{read_header_total}
use dave_coin.Server.{accept}
use dave_coin.Tcp.{Tcp}

-- A poke among the letters, or none.
find-IsPoke :
    (ls : List Letter)
    → ((before behind : List Letter) × (letter : Letter) × (ls ≡ before ++ letter ∷ behind)
        × (read_header letter.raw ≡ ok client_poke))
      ⊎ ((a b : Bytes) → ¬ Any (IsPoke a b) ls)
find-IsPoke [] = inr (λ a b h. h)
find-IsPoke (l ∷ ls) =
    let (k, e, _) = read_header_total l.raw in
    elim (Bool-cases (k == client_poke)) [
      | inl y ↦
          let same : k ≡ client_poke = ground (arith, y) in inl ([], ls, l, refl, e ∙ ap ok same)
      | inr n ↦ elim (find-IsPoke ls) [
        | inl (before, behind, letter, split, poke) ↦
            inl (l ∷ before, behind, letter, ap (λ xs. l ∷ xs) split, poke)
        | inr none_there ↦ inr (λ a b h. elim h [
          | inl (_, _, poke) ↦
              let both : ok k ≡ ok client_poke = sym e ∙ poke in
              let same : k ≡ client_poke = cc in ground (arith, n, same)
          | inr there ↦ none_there a b there
        ])
      ]
    ]

first_dial :
    (ips : List Bytes) → ((b : Bytes) × (0 < pending b ips)) ⊎ ((b : Bytes) → ¬ (0 < pending b ips))
first_dial [] = inr (λ b h. omega arith)
first_dial (x ∷ xs) = inl (x, ground (arith, same_bytes_refl x))

module _ ⦃t : Tcp⦄ where
  -- A thread that connects, or none among the nodes at `who`.
  find_dial :
      (nodes : Bytes → Node) (who : List Bytes)
      → ((a b : Bytes) × (0 < pending b (nodes a).connecting))
        ⊎ ((y : Bytes) → IsIn y who → (b : Bytes) → ¬ (0 < pending b (nodes y).connecting))
  find_dial nodes [] = inr (λ y h. elim h [ ])
  find_dial nodes (j ∷ js) = elim (first_dial (nodes j).connecting) [
    | inl (b, some_thread) ↦ inl (j, b, some_thread)
    | inr none_here ↦ elim (find_dial nodes js) [
      | inl found ↦ inl found
      | inr none_there ↦ inr (λ y h b. elim h [
        | inl e ↦ subst (λ i. ¬ (0 < pending b (nodes i).connecting)) e (none_here b)
        | inr there ↦ none_there y there b
      ])
    ]
  ]

  -- Every address has a client that is connected.
  abbrev pub AllReachable : Type 0
  AllReachable =
      (ip : Bytes) → (client : t.Client) × (t.get_ip client ≡ ip) × (t.is_connected client ≡ true)

  -- A step of work from `net`.
  abbrev pub CanWork : Net → Type 0
  CanWork net = (mid : Net) × (s : Step net mid) × IsWork s

  accept-connected :
      (client : t.Client) (tserver : t.Server) (node : Node)
      → t.is_connected client ≡ true
      → (node' : Node) × (accept client tserver node ≡ ok node')
  unfolding accept
  accept-connected client tserver node h = rw h (_, refl)

  can_dial : (net : Net) (a b : Bytes) → 0 < pending b (net.nodes a).connecting → CanWork net
  can_dial net a b some_thread = (
    _,
    establishes a b (initialize_client_connection true a b (net.nodes a)) some_thread refl,
    tt,
  )

  can_accept :
      (net : Net) (a b : Bytes) (behind : List (Bytes × Bytes))
      → AllReachable
      → net.arriving ≡ (a, b) ∷ behind
      → CanWork net
  can_accept net a b behind reachable e =
      let (client, same, connected) = reachable a in
      let tserver = (net.nodes b).server.tserver in
      let (node, returned) = accept-connected client tserver (net.nodes b) connected in
      (_, accepts a b node [] behind client tserver e same returned, tt)

  can_deliver :
      (net : Net) (letter : Letter) (before behind : List Letter)
      → AllReachable
      → net.flight ≡ before ++ letter ∷ behind
      → read_header letter.raw ≡ ok client_poke
      → CanWork net
  can_deliver net letter before behind reachable e poke =
      let (client, same, _) = reachable letter.from in
      let returned = receive_message-header_poke client letter.raw (net.nodes letter.to) poke in
      (_, delivers letter _ before behind client e same returned, tt)

  arriving_cases :
      (arriving : List (Bytes × Bytes))
      → ((a b : Bytes) × (behind : List (Bytes × Bytes)) × (arriving ≡ (a, b) ∷ behind))
        ⊎ (arriving ≡ [])
  arriving_cases [] = inr refl
  arriving_cases ((a, b) ∷ behind) = inl (a, b, behind, refl)

  pub progress :
      (who : List Bytes) (net : Net) → AllReachable → IsAmong who net → CanWork net ⊎ IsSettled net
  progress who net reachable h = elim (find_dial net.nodes who) [
    | inl (a, b, some_thread) ↦ inl (can_dial net a b some_thread)
    | inr none_dials ↦ elim (arriving_cases net.arriving) [
      | inl (a, b, behind, e) ↦ inl (can_accept net a b behind reachable e)
      | inr none_arrives ↦ elim (find-IsPoke net.flight) [
        | inl (before, behind, letter, e, poke) ↦
            inl (can_deliver net letter before behind reachable e poke)
        | inr none_pokes ↦ inr (record {
          none_dialing = λ a b dials.
              none_dials a (All-pending (λ x. IsIn a who × IsIn x who) b _ dials (h.dialers a)).0 b
                dials;
          all_accepted = λ a b arrives. subst (Any (λ e. e ≡ (a, b))) none_arrives arrives;
          none_poked = none_pokes;
        })
      ]
    ]
  ]
