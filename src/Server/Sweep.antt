-- ===== src/Server/Sweep.antt =====
-- One round of the heartbeat loop: who stays connected, and who is killed.
pub mod Kills
use dave_coin.Base.{
  ◌≡◌, refl, ap, ◌∙◌, [], ◌∷◌, Bool, true, false, Option, none, some, arith, if◌then◌else◌,
  Option-cases, Bool-cases, inl, inr,
}
use dave_coin.Bytes.{Bytes}
use dave_coin.Dict.{Dict, same_bytes, same_bytes_iff, lookup, lookup-erase}
use dave_coin.Node.{has_client_with_ip, Node, print}
use dave_coin.Server.{client_disconnected, drop_client, sweep_loop, sweep}
use dave_coin.Tcp.{Tcp}

module _ ⦃t : Tcp⦄ where
  -- Did a heartbeat come from this address since the last round?
  abbrev pub beat : Bytes → Node → Option Bool
  beat ip node = lookup ip node.server.client_heartbeats

  abbrev pub connection : Bytes → Node → Option t.Client
  connection ip node = lookup ip node.server.connected_clients

  abbrev pub answered : Option Bool → Bool
  answered none = false
  answered (some b) = true

  abbrev pub heard : Bytes → Node → Bool
  heard ip node = answered (beat ip node)

  pub connection-drop_client :
      (ip j : Bytes) (client : t.Client) (node : Node)
      → connection ip (drop_client j client node)
        ≡ (if same_bytes j ip then none else connection ip node)
  unfolding drop_client client_disconnected print
  connection-drop_client ip j client node = lookup-erase j ip node.server.connected_clients

  pub beat-drop_client :
      (ip j : Bytes) (client : t.Client) (node : Node)
      → beat ip (drop_client j client node) ≡ beat ip node
  unfolding drop_client client_disconnected print
  beat-drop_client ip j client node = refl

  pub sweep_loop-beat :
      (j : Bytes) (client : t.Client) (l : Dict t.Client) (node : Node) (b : Bool)
      → beat j node ≡ some b
      → sweep_loop ((j, client) ∷ l) node ≡ sweep_loop l node
  unfolding sweep_loop
  sweep_loop-beat j client l node b h = rw (h, sweep_loop) refl

  pub sweep_loop-skips :
      (j : Bytes) (client : t.Client) (l : Dict t.Client) (node : Node)
      → beat j node ≡ none
      → sweep_loop ((j, client) ∷ l) node ≡ sweep_loop l (drop_client j client node)
  unfolding sweep_loop
  sweep_loop-skips j client l node h = rw (h, sweep_loop) refl

  -- A client whose heartbeat came is left alone.
  sweep_loop-keeps :
      (l : Dict t.Client) (node : Node) (ip : Bytes) (b : Bool)
      → beat ip node ≡ some b
      → connection ip (sweep_loop l node) ≡ connection ip node
  unfolding sweep_loop
  sweep_loop-keeps [] node ip b h = refl
  sweep_loop-keeps ((j, client) ∷ l) node ip b h = elim (Option-cases (beat j node)) [
    | inl e ↦
        let ih : connection ip (sweep_loop l (drop_client j client node))
            ≡ connection ip (drop_client j client node) =
          sweep_loop-keeps l (drop_client j client node) ip b
            (beat-drop_client ip j client node ∙ h) in
        let d = connection-drop_client ip j client node in
        ap (connection ip) (sweep_loop-skips j client l node e)
        ∙ ih
        ∙ d
        ∙ ground (arith, same_bytes_iff j ip, h, e)
    | inr (b', e) ↦
        ap (connection ip) (sweep_loop-beat j client l node b' e) ∙ sweep_loop-keeps l node ip b h
  ]

  sweep_loop-silent :
      (l : Dict t.Client) (node : Node) (ip : Bytes)
      → beat ip node ≡ none
      → connection ip (sweep_loop l node)
        ≡ (if has_client_with_ip ip l then none else connection ip node)
  unfolding sweep_loop has_client_with_ip
  sweep_loop-silent [] node ip h = refl
  sweep_loop-silent ((j, client) ∷ l) node ip h = elim (Option-cases (beat j node)) [
    | inl e ↦
        let ih : connection ip (sweep_loop l (drop_client j client node)) ≡ (
            if has_client_with_ip ip l then none else connection ip (drop_client j client node)) =
          sweep_loop-silent l (drop_client j client node) ip
            (beat-drop_client ip j client node ∙ h) in
        let d = connection-drop_client ip j client node in
        ap (connection ip) (sweep_loop-skips j client l node e) ∙ ih ∙ ground (arith, d)
    | inr (b, e) ↦
        let ih = sweep_loop-silent l node ip h in
        ap (connection ip) (sweep_loop-beat j client l node b e)
        ∙ ih
        ∙ ground (arith, same_bytes_iff j ip, h, e)
  ]

  lookup-has_client_with_ip :
      (ip : Bytes) (l : Dict t.Client) → has_client_with_ip ip l ≡ false → lookup ip l ≡ none
  unfolding lookup has_client_with_ip
  lookup-has_client_with_ip ip [] h = refl
  lookup-has_client_with_ip ip ((j, client) ∷ l) h = ground (arith, lookup-has_client_with_ip ip l)

  -- One round keeps exactly the clients whose address sent a heartbeat since the last one: such an
  -- address has the connection that it had, and every other address has none.
  pub connection-sweep :
      (node : Node) (ip : Bytes)
      → connection ip (sweep node) ≡ (if heard ip node then connection ip node else none)
  unfolding sweep
  connection-sweep node ip =
      let l = node.server.connected_clients in
      elim (Option-cases (beat ip node)) [
        | inl e ↦ elim (Bool-cases (has_client_with_ip ip l)) [
          | inl y ↦ sweep_loop-silent l node ip e ∙ ground (arith, y, ap answered e)
          | inr n ↦
              sweep_loop-silent l node ip e
              ∙ ground (arith, n, lookup-has_client_with_ip ip l n, ap answered e)
        ]
        | inr (b, e) ↦ sweep_loop-keeps l node ip b e ∙ ground (arith, ap answered e)
      ]
