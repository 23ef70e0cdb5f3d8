-- ===== src/Network/Moves.antt =====
-- Each step of a network is a change that keeps its nodes mutual.
use dave_coin.Base.{
  Any, ◌<◌, ◌≡◌, refl, sym, ap, subst, ◌∙◌, ◌⊎◌, List, [], ◌∷◌, ◌++◌, true, arith, inl, inr,
  Bool-cases,
}
use dave_coin.Bytes.{Bytes, ok}
use dave_coin.Client.{is_active, connect_to_server}
use dave_coin.Client.Dedup.{pending}
use dave_coin.Dict.{same_bytes, same_bytes_iff, same_bytes_refl, lookup}
use dave_coin.Node.{Node, NServer}
use dave_coin.Packet.{read_header, client_poke}
use dave_coin.Network.{Net, Letter, put, IsPoke, IsActive, IsDialing, IsArriving}
use dave_coin.Network.Calm.{
  connect_to_server-KeepsClient, connect_to_server-asks, accept-KeepsClient,
  receive_message-KeepsClient, sweep-KeepsClient,
}
use dave_coin.Network.Change.{Change}
use dave_coin.Network.Puts.{put-Change, Any-middle, Any-without}
use dave_coin.Server.{accept, receive_message, dispatch, sweep}
use dave_coin.Server.Messages.{receive_message-Keeps, server-connect_to_server}
use dave_coin.Server.Steps.{IsConnected, connection-accept, sweep-IsConnected}
use dave_coin.Server.Sweep.{heard, connection-sweep}
use dave_coin.Tcp.{Tcp}

pub Any-here {ℓ} :
    {A : Type ℓ} (P : A → Type 0) (xs ys : List A) (x : A) → P x → Any P (xs ++ x ∷ ys)
Any-here P [] ys x h = inl h
Any-here P (z ∷ xs) ys x h = inr (Any-here P xs ys x h)

pub ok_node {ℓ} : {A : Type ℓ} {x y : A} → ok x ≡ ok y → x ≡ y
ok_node e = cc

module _ ⦃t : Tcp⦄ where
  pub same-IsConnected :
      (j : Bytes) (a b : Node)
      → b.server.connected_clients ≡ a.server.connected_clients
      → IsConnected j a
      → IsConnected j b
  same-IsConnected j a b same (client, h) = (client, ap (lookup j) same ∙ h)

  pub requests-Change :
      (a b : Bytes) (net : Net)
      → Change net (record net { nodes = put a (connect_to_server b (net.nodes a)) net.nodes })
  requests-Change a b net =
      let same =
        ap (λ (s : NServer). s.connected_clients) (server-connect_to_server b (net.nodes a)) in
      put-Change net a (connect_to_server b (net.nodes a)) net.arriving net.flight
        (connect_to_server-KeepsClient b (net.nodes a))
        (λ j. same-IsConnected j (net.nodes a) (connect_to_server b (net.nodes a)) same)
        (λ j h.
          inl (same-IsConnected j (connect_to_server b (net.nodes a)) (net.nodes a) (sym same) h))
        (λ x y h. inl h) (λ x y h. h) (λ x y h. inl h)

  pub sends-Change :
      (letter : Letter) (net : Net) → Change net (record net { flight = letter ∷ net.flight })
  sends-Change letter net = record {
    active = λ a b h. h;
    client = λ a b h. h;
    arriving = λ a b h. inl h;
    poked = λ a b h. inl (inr h);
    dialing = λ a b h. inl h;
    new_active = λ a b h. inl h;
    new_client = λ a b h. inl h;
    new_arriving = λ a b h. inl h;
  }

  pub IsConnected-sweep :
      (ip : Bytes) (node : Node) → IsConnected ip (sweep node) → IsConnected ip node
  IsConnected-sweep ip node (x, h) = elim (Bool-cases (heard ip node)) [
    | inl y ↦ (x, ground (arith, y, connection-sweep node ip, h))
    | inr n ↦ absurd (ground (arith, n, connection-sweep node ip, h))
  ]

  pub rounds-Change :
      (b : Bytes) (net : Net)
      → ((ip : Bytes) → IsConnected ip (net.nodes b) → heard ip (net.nodes b) ≡ true)
      → Change net (record net { nodes = put b (sweep (net.nodes b)) net.nodes })
  rounds-Change b net all_heard =
      put-Change net b (sweep (net.nodes b)) net.arriving net.flight
        (sweep-KeepsClient (net.nodes b))
        (λ j h. sweep-IsConnected j (net.nodes b) (all_heard j h) h)
        (λ j h. inl (IsConnected-sweep j (net.nodes b) h)) (λ x y h. inl h) (λ x y h. h)
        (λ x y h. inl h)

  accept-IsConnected :
      (client : t.Client) (tserver : t.Server) (a b : Node) (ip : Bytes)
      → accept client tserver a ≡ ok b
      → t.get_ip client ≡ ip
      → IsConnected ip b
  accept-IsConnected client tserver a b ip e same = (
    client,
    connection-accept ip client tserver a b e
        ∙ ground (arith, same, same_bytes_iff (t.get_ip client) ip),
  )

  pub accept-cases :
      (client : t.Client) (tserver : t.Server) (a b : Node) (ip : Bytes)
      → accept client tserver a ≡ ok b
      → IsConnected ip b
      → IsConnected ip a ⊎ (t.get_ip client ≡ ip)
  accept-cases client tserver a b ip e (x, h) =
      elim (Bool-cases (same_bytes (t.get_ip client) ip)) [
        | inl y ↦ inr ((same_bytes_iff _ _).0 y)
        | inr n ↦ inl (x, ground (arith, n, connection-accept ip client tserver a b e, h))
      ]

  accept-grows :
      (client : t.Client) (tserver : t.Server) (a b : Node) (ip : Bytes)
      → accept client tserver a ≡ ok b
      → IsConnected ip a
      → IsConnected ip b
  accept-grows client tserver a b ip e (x, h) =
      elim (Bool-cases (same_bytes (t.get_ip client) ip)) [
        | inl y ↦ accept-IsConnected client tserver a b ip e ((same_bytes_iff _ _).0 y)
        | inr n ↦ (x, connection-accept ip client tserver a b e ∙ ground (arith, n, h))
      ]

  pub accepts-Change :
      (a b : Bytes) (net : Net) (node : Node) (before behind : List (Bytes × Bytes))
      (client : t.Client) (tserver : t.Server)
      → net.arriving ≡ before ++ (a, b) ∷ behind
      → t.get_ip client ≡ a
      → accept client tserver (net.nodes b) ≡ ok node
      → Change net (record net { nodes = put b node net.nodes; arriving = before ++ behind })
  accepts-Change a b net node before behind client tserver e same h =
      let arrived : IsArriving a b net =
        subst (Any (λ q. q ≡ (a, b))) (sym e)
          (Any-here (λ q. q ≡ (a, b)) before behind (a, b) refl) in
      put-Change net b node (before ++ behind) net.flight
        (accept-KeepsClient client tserver (net.nodes b) node h)
        (λ j. accept-grows client tserver (net.nodes b) node j h)
        (λ j x. elim (accept-cases client tserver (net.nodes b) node j h x) [
          | inl old ↦ inl old
          | inr new ↦ inr (subst (λ i. IsArriving i b net) (sym same ∙ new) arrived)
        ])
        (λ x y z.
          elim (Any-middle (λ q. q ≡ (x, y)) before behind (a, b)
            (subst (Any (λ q. q ≡ (x, y))) e z)) [
              | inl q ↦ inr (
                  subst (λ (p : Bytes × Bytes). IsConnected p.0 (put b node net.nodes p.1)) q
                    (rw (same_bytes_refl b)
                      (accept-IsConnected client tserver (net.nodes b) node a h same)))
              | inr other ↦ inl other
            ])
        (λ x y z.
          subst (Any (λ q. q ≡ (x, y))) (sym e)
            (Any-without (λ q. q ≡ (x, y)) before behind (a, b) z))
        (λ x y z. inl z)

  -- A poke is a request.
  pub receive_message-header_poke :
      (client : t.Client) (raw : Bytes) (node : Node)
      → read_header raw ≡ ok client_poke
      → receive_message client raw node ≡ ok (connect_to_server (t.get_ip client) node)
  unfolding receive_message dispatch
  receive_message-header_poke client raw node h = rw h refl

  -- The receiver of a poke from `a` is connected to `a`, or connects.
  poke-asks :
      (client : t.Client) (raw : Bytes) (a : Bytes) (node node' : Node)
      → read_header raw ≡ ok client_poke
      → t.get_ip client ≡ a
      → receive_message client raw node ≡ ok node'
      → (0 < pending a node'.connecting) ⊎ (is_active a node'.active_clients ≡ true)
  poke-asks client raw a node node' poke same h =
      let e : connect_to_server a node ≡ node' =
        ap (λ i. connect_to_server i node) (sym same)
        ∙ ok_node (sym (receive_message-header_poke client raw node poke) ∙ h) in
      subst (λ (n : Node). (0 < pending a n.connecting) ⊎ (is_active a n.active_clients ≡ true)) e
        (elim (connect_to_server-asks a node) [ inl y ↦ inr y | inr y ↦ inl y ])

  pub delivers-Change :
      (letter : Letter) (net : Net) (node : Node) (before behind : List Letter) (client : t.Client)
      → net.flight ≡ before ++ letter ∷ behind
      → t.get_ip client ≡ letter.from
      → receive_message client letter.raw (net.nodes letter.to) ≡ ok node
      → Change net (record net { nodes = put letter.to node net.nodes; flight = before ++ behind })
  delivers-Change letter net node before behind client e same h =
      let old = net.nodes letter.to in
      let kept = (receive_message-Keeps client letter.raw old node h).same_connections in
      let net' : Net = record net {
        nodes = put letter.to node net.nodes;
        flight = before ++ behind;
      } in
      put-Change net letter.to node net.arriving (before ++ behind)
        (receive_message-KeepsClient client letter.raw old node h)
        (λ j. same-IsConnected j old node kept)
        (λ j x. inl (same-IsConnected j node old (sym kept) x)) (λ x y z. inl z) (λ x y z. z)
        (λ x y z.
          elim (Any-middle (IsPoke x y) before behind letter (subst (Any (IsPoke x y)) e z)) [
            | inl (from, to, poke) ↦ inr (
                subst (λ q. IsDialing q x net' ⊎ IsActive q x net') to
                  (rw (same_bytes_refl letter.to)
                    (poke-asks client letter.raw x old node poke (same ∙ from) h)))
            | inr other ↦ inl other
          ])
