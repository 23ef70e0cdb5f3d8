-- ===== src/Network/Losses/Stale.antt =====
-- A connection that one side has lost is not made again while the other side keeps it.
use dave_coin.Base.{◌≤◌, ◌<◌, ◌≡◌, refl, ap, ◌∙◌, List, Bool, true, false, arith, Any}
use dave_coin.Bytes.{Bytes}
use dave_coin.Client.{is_active, initialize_client_connection, finished}
use dave_coin.Client.Dedup.{pending, pending-finished}
use dave_coin.Network.{Net, Letter, put, IsActive, IsDialing, IsClient, IsArriving}
use dave_coin.Network.Calm.{KeepsClient}
use dave_coin.Network.Puts.{put-elim}
use dave_coin.Network.Establish.{is_active-append_old}
use dave_coin.Node.{Node, print}
use dave_coin.Server.Steps.{IsConnected}
use dave_coin.Tcp.{Tcp}

module _ ⦃t : Tcp⦄ (a b : Bytes) where
  -- `a` has a connection to `b`, and that is all: no thread of `a` connects to `b`, no connection from `a`
  -- waits at `b`, and `a` is not a client of `b`.
  pub record IsStale (net : Net) : Type 0 where
    pub kept : IsActive a b net
    pub undialed : ¬ IsDialing a b net
    pub unarrived : ¬ IsArriving a b net
    pub unlisted : ¬ IsClient a b net

  -- A step that changes one node, and makes no request of `a` for `b` and no client `a` of `b`.
  pub put-IsStale :
      (net : Net) (w : Bytes) (node : Node) (arriving : List (Bytes × Bytes)) (flight : List Letter)
      → ((w ≡ a)
          → is_active b (net.nodes w).active_clients ≡ true
          → is_active b node.active_clients ≡ true)
      → ((w ≡ a)
          → is_active b (net.nodes w).active_clients ≡ true
          → pending b node.connecting ≤ pending b (net.nodes w).connecting)
      → ((w ≡ b) → IsConnected a node → IsConnected a (net.nodes w))
      → ¬ Any (λ e. e ≡ (a, b)) arriving
      → IsStale net
      → IsStale (record { nodes = put w node net.nodes; arriving = arriving; flight = flight })
  put-IsStale net w node arriving flight active dialed listed none s = record {
    kept =
        put-elim
          (λ j n.
            is_active b (net.nodes j).active_clients ≡ true
            → (j ≡ a)
            → is_active b n.active_clients ≡ true)
          w node net.nodes a (λ h same. active same h) (λ _ h _. h) s.kept refl;
    undialed =
        put-elim
          (λ j n.
            is_active b (net.nodes j).active_clients ≡ true
            → (j ≡ a)
            → ¬ (0 < pending b (net.nodes j).connecting)
            → ¬ (0 < pending b n.connecting))
          w node net.nodes a (λ h same no dial. no (omega (arith, dial, dialed same h)))
          (λ _ h _ no. no) s.kept refl s.undialed;
    unarrived = none;
    unlisted =
        put-elim (λ j n. (j ≡ b) → ¬ IsConnected a (net.nodes j) → ¬ IsConnected a n) w node
          net.nodes b (λ same no h. no (listed same h)) (λ _ _ no. no) refl s.unlisted;
  }

  -- The same when the client's half is kept.
  pub calm-IsStale :
      (net : Net) (w : Bytes) (node : Node) (arriving : List (Bytes × Bytes)) (flight : List Letter)
      → KeepsClient (net.nodes w) node
      → ((w ≡ b) → IsConnected a node → IsConnected a (net.nodes w))
      → ¬ Any (λ e. e ≡ (a, b)) arriving
      → IsStale net
      → IsStale (record { nodes = put w node net.nodes; arriving = arriving; flight = flight })
  calm-IsStale net w node arriving flight calm listed none s =
      put-IsStale net w node arriving flight (λ _ h. ap (is_active b) calm.same_active ∙ h)
        (λ _. calm.not_again b) listed none s

  initialize-kept :
      (success : Bool) (w c : Bytes) (node : Node)
      → is_active b node.active_clients ≡ true
      → is_active b (initialize_client_connection success w c node).active_clients ≡ true
  unfolding initialize_client_connection print
  initialize-kept true w c node h = is_active-append_old b node.active_clients _ h
  initialize-kept false w c node h = h

  initialize-connecting :
      (success : Bool) (w c : Bytes) (node : Node)
      → (initialize_client_connection success w c node).connecting ≡ finished c node.connecting
  unfolding initialize_client_connection print
  initialize-connecting true w c node = refl
  initialize-connecting false w c node = refl

  IsConnected-initialize :
      (success : Bool) (w c : Bytes) (node : Node)
      → IsConnected a (initialize_client_connection success w c node)
      → IsConnected a node
  unfolding initialize_client_connection print
  IsConnected-initialize true w c node h = h
  IsConnected-initialize false w c node h = h

  -- The end of a thread's `connectTo`.
  pub initialize-IsStale :
      (net : Net) (success : Bool) (w c : Bytes) (arriving : List (Bytes × Bytes))
      (flight : List Letter)
      → 0 < pending c (net.nodes w).connecting
      → ¬ Any (λ e. e ≡ (a, b)) arriving
      → IsStale net
      → IsStale (record {
        nodes = put w (initialize_client_connection success w c (net.nodes w)) net.nodes;
        arriving = arriving;
        flight = flight;
      })
  initialize-IsStale net success w c arriving flight some_thread none s =
      let old = net.nodes w in
      put-IsStale net w (initialize_client_connection success w c old) arriving flight
        (λ _. initialize-kept success w c old)
        (λ _ _. omega (
          arith,
          ap (pending b) (initialize-connecting success w c old),
          pending-finished b c old.connecting some_thread,
        ))
        (λ _. IsConnected-initialize success w c old) none s
