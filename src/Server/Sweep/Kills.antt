-- ===== src/Server/Sweep/Kills.antt =====
-- All that one round of the heartbeat loop does: which clients it kills, in which order, and what it prints.
use dave_coin.Base.{
  ◌≡◌, refl, sym, ap, subst, ◌∙◌, List, [], ◌∷◌, ◌++◌, Bool, none, some, append-nil, append_assoc,
  if◌then◌else◌, Option-cases, inl, inr,
}
use dave_coin.Bytes.{Bytes}
use dave_coin.Dict.{Dict, lookup, erase}
use dave_coin.Dict.Order.{IsSorted, erase-middle, IsSorted-without}
use dave_coin.Node.{Node, Notice, killed_client, print}
use dave_coin.Server.{client_disconnected, drop_client, sweep_loop, sweep}
use dave_coin.Server.Sweep.{beat, answered, sweep_loop-beat, sweep_loop-skips}
use dave_coin.Tcp.{Tcp}

module _ ⦃t : Tcp⦄ where
  -- The entries whose addresses were heard, and the others.
  abbrev pub kept : Dict Bool → Dict t.Client → Dict t.Client
  kept beats [] = []
  kept beats ((ip, client) ∷ l) =
      if answered (lookup ip beats) then (ip, client) ∷ kept beats l else kept beats l

  abbrev pub silent : Dict Bool → Dict t.Client → Dict t.Client
  silent beats [] = []
  silent beats ((ip, client) ∷ l) =
      if answered (lookup ip beats) then silent beats l else (ip, client) ∷ silent beats l

  abbrev pub kill_all : Dict t.Client → t.Server → t.Server
  kill_all [] s = s
  kill_all ((ip, client) ∷ l) s = kill_all l (t.kill_client s client)

  abbrev pub farewells : Dict t.Client → List Notice
  farewells [] = []
  farewells ((ip, client) ∷ l) = killed_client (t.get_ip client) ∷ farewells l

  -- `node'` is what is left of `node` when the entries `l` of its map, behind those of `done`, were visited.
  record IsSwept (done l : Dict t.Client) (node node' : Node) : Type 0 where
    clients : node'.server.connected_clients ≡ done ++ kept node.server.client_heartbeats l
    tserver :
        node'.server.tserver ≡ kill_all (silent node.server.client_heartbeats l) node.server.tserver
    output : node'.output ≡ node.output ++ farewells (silent node.server.client_heartbeats l)

  IsSwept-beat :
      (done l : Dict t.Client) (ip : Bytes) (client : t.Client) (node node' : Node) (b : Bool)
      → beat ip node ≡ some b
      → IsSwept (done ++ (ip, client) ∷ []) l node node'
      → IsSwept done ((ip, client) ∷ l) node node'
  IsSwept-beat done l ip client node node' b h s = record {
    clients = s.clients ∙ append_assoc done ((ip, client) ∷ []) _ ∙ rw h refl;
    tserver = s.tserver ∙ rw h refl;
    output = s.output ∙ rw h refl;
  }

  IsSwept-drop_client :
      (done l : Dict t.Client) (ip : Bytes) (client : t.Client) (node node' : Node)
      → beat ip node ≡ none
      → IsSwept done l (drop_client ip client node) node'
      → IsSwept done ((ip, client) ∷ l) node node'
  unfolding drop_client client_disconnected print
  IsSwept-drop_client done l ip client node node' h s = record {
    clients = s.clients ∙ rw h refl;
    tserver = s.tserver ∙ rw h refl;
    output = s.output ∙ append_assoc node.output _ _ ∙ rw h refl;
  }

  pub clients-drop_client :
      (ip : Bytes) (client : t.Client) (node : Node)
      → (drop_client ip client node).server.connected_clients
        ≡ erase ip node.server.connected_clients
  unfolding drop_client client_disconnected print
  clients-drop_client ip client node = refl

  sweep_loop-IsSwept :
      (done l : Dict t.Client) (node : Node)
      → node.server.connected_clients ≡ done ++ l
      → IsSorted (done ++ l)
      → IsSwept done l node (sweep_loop l node)
  unfolding sweep_loop
  sweep_loop-IsSwept done [] node e sorted = record {
    clients = e;
    tserver = refl;
    output = sym (append-nil node.output);
  }
  sweep_loop-IsSwept done ((ip, client) ∷ l) node e sorted = elim (Option-cases (beat ip node)) [
    | inl h ↦
        let node' = drop_client ip client node in
        let left : node'.server.connected_clients ≡ done ++ l =
          clients-drop_client ip client node
          ∙ ap (erase ip) e
          ∙ erase-middle ip client done l sorted in
        subst (IsSwept done ((ip, client) ∷ l) node) (sym (sweep_loop-skips ip client l node h)) (
          IsSwept-drop_client done l ip client node _ h
            (sweep_loop-IsSwept done l node' left (IsSorted-without ip client done l sorted)))
    | inr (b, h) ↦
        let split = append_assoc done ((ip, client) ∷ []) l in
        subst (IsSwept done ((ip, client) ∷ l) node) (sym (sweep_loop-beat ip client l node b h)) (
          IsSwept-beat done l ip client node _ b h (
            sweep_loop-IsSwept (done ++ (ip, client) ∷ []) l node (e ∙ sym split)
              (subst IsSorted (sym split) sorted)))
  ]

  -- One round on a map of clients in the order of its keys leaves in it exactly the entries whose addresses
  -- were heard, kills the others in that order, each once, prints a line for each of them, and forgets
  -- all heartbeats.
  pub sweep_lem :
      (node : Node)
      → IsSorted node.server.connected_clients
      → ((sweep node).server.connected_clients
          ≡ kept node.server.client_heartbeats node.server.connected_clients)
        × ((sweep node).server.tserver
            ≡ kill_all
                (silent node.server.client_heartbeats node.server.connected_clients)
                node.server.tserver)
        × ((sweep node).output
            ≡ node.output
              ++ farewells (silent node.server.client_heartbeats node.server.connected_clients))
        × ((sweep node).server.client_heartbeats ≡ [])
  unfolding sweep
  sweep_lem node sorted =
      let s = sweep_loop-IsSwept [] node.server.connected_clients node refl sorted in
      (s.clients, s.tserver, s.output, refl)
