-- ===== src/Server/Round.antt =====
-- A round of the heartbeat loop while the other threads run: between any two entries that it visits, the
-- server accepts clients and handles messages.
pub mod Fair
pub mod Alone
pub mod History
pub mod Beats
pub mod Ledger
use dave_coin.Base.{ℕ, ◌≡◌, List, [], ◌∷◌, Bool, true, false, Option, none, some}
use dave_coin.Bytes.{Bytes}
use dave_coin.Dict.{Dict, same_bytes, lookup}
use dave_coin.Dict.Cursor.{first_key, next_key}
use dave_coin.Node.{Node}
use dave_coin.Server.{drop_client}
use dave_coin.Server.Steps.{Event, accepted, received}
use dave_coin.Tcp.{Tcp}

module _ ⦃t : Tcp⦄ where
  -- The body of the loop over `connected_clients`, for the entry at `ip`. No other thread erases entries, so
  -- it is there.
  unfoldable pub visit : Bytes → Node → Node
  unfolding drop_client
  visit ip node = elim (lookup ip node.server.connected_clients) [
    | none ↦ node
    | some client ↦ elim (lookup ip node.server.client_heartbeats) [
      | some _ ↦ node
      | none ↦ drop_client ip client node
    ]
  ]

  -- The end of the round.
  unfoldable pub clear_heartbeats : Node → Node
  clear_heartbeats node = record node { server = record (node.server) { client_heartbeats = [] } }

  -- A round that began at `a`, with its iterator.
  pub data Round (a : Node) : Option Bytes → Node → Type 0 where
    begins : Round a (first_key a.server.connected_clients) a
    meanwhile : {i : Option Bytes} {b d : Node} → Round a i b → Event b d → Round a i d
    visits :
        {b : Node} (ip : Bytes)
        → Round a (some ip) b
        → Round a (next_key ip b.server.connected_clients) (visit ip b)

  -- No client at `ip` was accepted or heard in the round.
  abbrev pub IsQuiet : {a b : Node} {i : Option Bytes} → Bytes → Round a i b → Type 0
  IsQuiet ip begins = Unit
  IsQuiet ip (meanwhile r (accepted client tserver e)) =
      (same_bytes (t.get_ip client) ip ≡ false) × IsQuiet ip r
  IsQuiet ip (meanwhile r (received client raw e)) =
      (same_bytes (t.get_ip client) ip ≡ false) × IsQuiet ip r
  IsQuiet ip (visits j r) = IsQuiet ip r
