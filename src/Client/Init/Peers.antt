-- ===== src/Client/Init/Peers.antt =====
-- The threads that `Init` starts for a file of addresses.
use dave_coin.Base.{
  ℕ, ◌≡◌, ◌≢◌, refl, sym, ap, ◌∙◌, List, [], ◌∷◌, ◌++◌, All, some, ◌==◌, arith, Bool-cases, inl,
  inr, append_assoc, append-nil,
}
use dave_coin.Bytes.{Bytes, ok}
use dave_coin.Client.{is_active, connect_to_server, connect_peers}
use dave_coin.Client.Init.{newline, lines_from, lines, init_peers}
use dave_coin.Client.Connect.{connect_to_server-inactive}
use dave_coin.Node.{Node}
use dave_coin.Tcp.{Tcp}

-- The file with an address on each line.
abbrev pub peers_file : List Bytes → Bytes
peers_file [] = []
peers_file (ip ∷ ips) = ip ++ newline ∷ peers_file ips

lines_from-line :
    (line ip rest : Bytes)
    → All (λ x. x ≢ newline) ip
    → lines_from line (ip ++ newline ∷ rest) ≡ (line ++ ip) ∷ lines_from [] rest
unfolding lines_from
lines_from-line line [] rest h = ap (λ l. l ∷ lines_from [] rest) (sym (append-nil line))
lines_from-line line (x ∷ ip) rest (ne, h) = elim (Bool-cases (x == newline)) [
  | inl y ↦ absurd (ne (ground (arith, y)))
  | inr n ↦
      rw (n, lines_from) (lines_from-line (line ++ x ∷ []) ip rest h)
      ∙ ap (λ l. l ∷ lines_from [] rest) (append_assoc line (x ∷ []) ip)
]

lines-peers_file :
    (ips : List Bytes) → All (All (λ x. x ≢ newline)) ips → lines (peers_file ips) ≡ ips
unfolding lines lines_from
lines-peers_file [] h = refl
lines-peers_file (ip ∷ ips) (h, hs) =
    lines_from-line [] ip (peers_file ips) h ∙ ap (λ l. ip ∷ l) (lines-peers_file ips hs)

module _ ⦃t : Tcp⦄ where
  -- No other thread does anything to the node.
  abbrev pub idle : ℕ → Node → Node
  idle k node = node

  connect_peers_none :
      (ips : List Bytes) (node : Node)
      → node.active_clients ≡ []
      → connect_peers idle ips node ≡ record node { connecting = node.connecting ++ ips }
  unfolding connect_peers connect_to_server is_active
  connect_peers_none [] node h =
      ap (λ l. record node { connecting = l }) (sym (append-nil node.connecting))
  connect_peers_none (ip ∷ ips) node h =
      ap (connect_peers idle ips) (connect_to_server-inactive ip node (ap (is_active ip) h))
      ∙ connect_peers_none ips (record node { connecting = node.connecting ++ ip ∷ [] }) h
      ∙ ap (λ l. record node { connecting = l }) (append_assoc node.connecting (ip ∷ []) ips)

  -- From a node with no active connection, `Init` starts, if no other thread does anything until it
  -- has read the file, one thread for each line of peers.dat, in their
  -- order, and changes nothing else.
  pub init_peers_lem :
      (ips : List Bytes) (node : Node)
      → All (All (λ x. x ≢ newline)) ips
      → node.active_clients ≡ []
      → init_peers idle (some (peers_file ips)) node
        ≡ ok (record node { connecting = node.connecting ++ ips })
  unfolding init_peers
  init_peers_lem ips node clean h = ap ok (
      ap (λ l. connect_peers idle l node) (lines-peers_file ips clean)
      ∙ connect_peers_none ips node h)
