-- ===== src/Network/Establish.antt =====
-- The step in which a thread's `connectTo` succeeds.
use dave_coin.Base.{
  ◌<◌, ◌≡◌, refl, sym, ap, subst, ◌∙◌, ◌⊎◌, List, [], ◌∷◌, ◌++◌, true, false, some, arith, inl, inr,
  Bool-cases, drop, length, drop-append,
}
use dave_coin.Bytes.{Bytes}
use dave_coin.Client.{is_active, initialize_client_connection, finished}
use dave_coin.Client.Connect.{is_active-append}
use dave_coin.Client.Dedup.{pending, pending-finished}
use dave_coin.Dict.{Dict, same_bytes, same_bytes_iff, same_bytes_refl, lookup}
use dave_coin.Node.{Node, NClient, print, has_client_with_ip}
use dave_coin.Packet.{serialize_client_poke}
use dave_coin.Network.{after_establishing, Net, IsPoke, IsActive, IsClient, IsPoked}
use dave_coin.Network.Change.{Change}
use dave_coin.Network.Puts.{put-elim, put-cases, Any-append}
use dave_coin.Server.Handshake.{header_poke}
use dave_coin.Server.Steps.{IsConnected}
use dave_coin.Tcp.{Tcp}

is_active-append_cases :
    (ip : Bytes) (cs : List NClient) (c : NClient)
    → is_active ip (cs ++ c ∷ []) ≡ true
    → (is_active ip cs ≡ true) ⊎ (c.server_ip ≡ ip)
unfolding is_active
is_active-append_cases ip [] c h = ground (arith, h, same_bytes_iff c.server_ip ip)
is_active-append_cases ip (d ∷ cs) c h = ground (arith, h, is_active-append_cases ip cs c)

pub is_active-append_old :
    (ip : Bytes) (cs : List NClient) (c : NClient)
    → is_active ip cs ≡ true
    → is_active ip (cs ++ c ∷ []) ≡ true
unfolding is_active
is_active-append_old ip [] c h = absurd (ground (arith, h))
is_active-append_old ip (d ∷ cs) c h = ground (arith, h, is_active-append_old ip cs c)

module _ ⦃t : Tcp⦄ where
  has_client_with_ip-lookup :
      (ip : Bytes) (l : Dict t.Client)
      → has_client_with_ip ip l ≡ true
      → (client : t.Client) × (lookup ip l ≡ some client)
  unfolding lookup has_client_with_ip
  has_client_with_ip-lookup ip [] h = absurd (ground (arith, h))
  has_client_with_ip-lookup ip ((j, client) ∷ l) h = elim (Bool-cases (same_bytes j ip)) [
    | inl y ↦ (client, rw y refl)
    | inr n ↦ let (found, e) = has_client_with_ip-lookup ip l (rw n at h) in (found, rw n e)
  ]

  -- The node when its thread for `b` has connected.
  abbrev pub connected_to : Bytes → Bytes → Node → Node
  connected_to a b node = initialize_client_connection true a b node

  pub active_clients-connected :
      (a b : Bytes) (node : Node)
      → (connected_to a b node).active_clients
        ≡ node.active_clients ++ record { server_ip = b; alive = true } ∷ []
  unfolding initialize_client_connection print
  active_clients-connected a b node = refl

  pub active-connected :
      (a b : Bytes) (node : Node) → is_active b (connected_to a b node).active_clients ≡ true
  active-connected a b node =
      ap (is_active b) (active_clients-connected a b node)
      ∙ is_active-append b node.active_clients true

  pub connecting-connected :
      (a b : Bytes) (node : Node) → (connected_to a b node).connecting ≡ finished b node.connecting
  unfolding initialize_client_connection print
  connecting-connected a b node = refl

  server-connected : (a b : Bytes) (node : Node) → (connected_to a b node).server ≡ node.server
  unfolding initialize_client_connection print
  server-connected a b node = refl

  pub connected_to-IsConnected :
      (a b j : Bytes) (node : Node) → IsConnected j node → IsConnected j (connected_to a b node)
  unfolding initialize_client_connection print
  connected_to-IsConnected a b j node h = h

  pub IsConnected-connected_to :
      (a b j : Bytes) (node : Node) → IsConnected j (connected_to a b node) → IsConnected j node
  unfolding initialize_client_connection print
  IsConnected-connected_to a b j node h = h

  pub sent-connected :
      (a b : Bytes) (node : Node)
      → has_client_with_ip b node.server.connected_clients ≡ false
      → drop (length node.sent) (connected_to a b node).sent ≡ (b, serialize_client_poke a) ∷ []
  unfolding initialize_client_connection print
  sent-connected a b node h = rw h (drop-append node.sent ((b, serialize_client_poke a) ∷ []))

  -- A thread that connects to `j` is still there, or the connection is.
  dialing-connected :
      (a b j : Bytes) (node : Node)
      → 0 < pending b node.connecting
      → 0 < pending j node.connecting
      → (0 < pending j (connected_to a b node).connecting)
        ⊎ (is_active j (connected_to a b node).active_clients ≡ true)
  dialing-connected a b j node some_thread h = elim (Bool-cases (same_bytes b j)) [
    | inl y ↦ inr (
        subst (λ i. is_active i (connected_to a b node).active_clients ≡ true)
          ((same_bytes_iff b j).0 y) (active-connected a b node))
    | inr n ↦
        let fewer = rw n at (pending-finished j b node.connecting some_thread) in
        inl (omega (arith, h, ap (pending j) (connecting-connected a b node), fewer))
  ]

  -- The network when the thread of `a` for `b` has connected.
  abbrev pub established : Bytes → Bytes → Net → Net
  established a b net = after_establishing a b net (connected_to a b (net.nodes a))

  pub established-active : (a b : Bytes) (net : Net) → IsActive a b (established a b net)
  established-active a b net = rw (same_bytes_refl a) (active-connected a b (net.nodes a))

  established-client :
      (a b : Bytes) (net : Net) (x y : Bytes)
      → IsClient x y net
      → IsClient x y (established a b net)
  established-client a b net x y h =
      put-elim (λ j n. IsConnected x (net.nodes j) → IsConnected x n) a
        (connected_to a b (net.nodes a)) net.nodes y (connected_to-IsConnected a b x (net.nodes a))
        (λ _ z. z) h

  -- If the other side does not listen then it is poked.
  established-pokes :
      (a b : Bytes) (net : Net)
      → IsClient b a (established a b net) ⊎ IsPoked a b (established a b net)
  established-pokes a b net =
      elim (Bool-cases (has_client_with_ip b (net.nodes a).server.connected_clients)) [
        | inl y ↦ inl (established-client a b net b a (has_client_with_ip-lookup b _ y))
        | inr n ↦
            inr (rw (sent-connected a b (net.nodes a) n) (inl (refl, refl, header_poke t.Client a)))
      ]

  pub established-Change :
      (a b : Bytes) (net : Net)
      → 0 < pending b (net.nodes a).connecting
      → Change net (established a b net)
  established-Change a b net some_thread =
      let node = connected_to a b (net.nodes a) in
      record {
        active = λ x y h.
            put-elim
              (λ j n.
                is_active y (net.nodes j).active_clients ≡ true
                → is_active y n.active_clients ≡ true)
              a node net.nodes x
              (λ z.
                ap (is_active y) (active_clients-connected a b (net.nodes a))
                ∙ is_active-append_old y _ _ z)
              (λ _ z. z) h;
        client = established-client a b net;
        arriving = λ x y h. inl (inr h);
        poked = λ x y h. inl (Any-append (IsPoke x y) _ net.flight h);
        dialing = λ x y h.
            put-elim
              (λ j n.
                0 < pending y (net.nodes j).connecting
                → (0 < pending y n.connecting) ⊎ (is_active y n.active_clients ≡ true))
              a node net.nodes x (dialing-connected a b y (net.nodes a) some_thread) (λ _ z. inl z)
              h;
        new_active = λ x y h.
            elim (put-cases (λ n. is_active y n.active_clients ≡ true) a node net.nodes x h) [
              | inl (same, z) ↦
                  elim (is_active-append_cases y (net.nodes a).active_clients _
                    (sym (ap (is_active y) (active_clients-connected a b (net.nodes a))) ∙ z)) [
                      | inl old ↦ inl (subst (λ j. IsActive j y net) same old)
                      | inr new ↦ inr (
                        inl (λ i. (same i, new i)),
                        subst
                            (λ q.
                              IsClient q x (established a b net)
                              ⊎ IsPoked x q (established a b net))
                            new
                            (subst
                              (λ q.
                                IsClient b q (established a b net)
                                ⊎ IsPoked q b (established a b net))
                              same (established-pokes a b net)),
                      )
                    ]
              | inr z ↦ inl z
            ];
        new_client = λ x y h. elim (put-cases (IsConnected x) a node net.nodes y h) [
          | inl (same, z) ↦
              inl (
                subst (λ j. IsClient x j net) same (IsConnected-connected_to a b x (net.nodes a) z))
          | inr z ↦ inl z
        ];
        new_arriving = λ x y h. elim h [
          | inl e ↦ inr (
              subst (λ (q : Bytes × Bytes). IsActive q.0 q.1 (established a b net)) e
                (established-active a b net))
          | inr old ↦ inl old
        ];
      }
