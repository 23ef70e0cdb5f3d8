-- ===== src/Client/Init.antt =====
-- `NodeClient::Init`: the addresses in peers.dat, and a round of the loop that joins the connections' threads.
pub mod Peers
use dave_coin.Base.{
  if◌then◌else◌, ℕ, zero, suc, List, [], ◌∷◌, ◌++◌, Bool, true, false, Option, none, some, ◌==◌,
  flatten,
}
use dave_coin.Bytes.{Bytes, Outcome, ok, throws, no_peers}
use dave_coin.Client.{connect_to_server, connect_peers}
use dave_coin.Node.{Node, NClient}
use dave_coin.Tcp.{Tcp}

abbrev pub newline : ℕ
newline = 10

-- The last line, which no newline ends: `getline` fails if nothing is left.
abbrev last_line : Bytes → List Bytes
last_line [] = []
last_line (x ∷ line) = (x ∷ line) ∷ []

-- The lines that `std::getline` reads until it fails; `line` is what has been read of the current one.
unfoldable pub lines_from : Bytes → Bytes → List Bytes
lines_from line [] = last_line line
lines_from line (x ∷ xs) = elim (x == newline) [
  | true ↦ line ∷ lines_from [] xs
  | false ↦ lines_from (line ++ x ∷ []) xs
]

unfoldable pub lines : Bytes → List Bytes
unfolding lines_from
lines text = lines_from [] text

module _ ⦃t : Tcp⦄ where
  -- `Init` up to its main loop; `none` means that dat/peers.dat cannot be opened, and `busy` is what the other
  -- threads do meanwhile.
  unfoldable pub init_peers : (ℕ → Node → Node) → Option Bytes → Node → Outcome Node
  unfolding lines
  init_peers busy none node = throws no_peers
  init_peers busy (some text) node = ok (connect_peers busy (lines text) node)

-- One round of the main loop, on `active_clients`: the first connection is joined and erased. There is no round
-- without connections, and none can end while the first one's loops go on, since `join` waits for them.
unfoldable pub join_first : List NClient → Option (List NClient)
join_first [] = none
join_first (nc ∷ rest) = if nc.alive then none else some rest
