-- ===== src/Network/Losses.antt =====
-- Nodes whose connections fail and end: what can happen besides the steps of `Network`, and what becomes of
-- the two sides of a connection.
pub mod Stale
pub mod Lasts
use dave_coin.Base.{some, ◌<◌, ◌≡◌, [], ◌∷◌, ◌++◌, List, true, false, map, Bool}
use dave_coin.Bytes.{Bytes}
use dave_coin.Client.{initialize_client_connection, disconnected}
use dave_coin.Client.Dedup.{pending}
use dave_coin.Client.Init.{join_first}
use dave_coin.Client.Loops.{Link, Turn, turn}
use dave_coin.Network.{Net, Step, put}
use dave_coin.Node.{Node, NClient}
use dave_coin.Server.{sweep}
use dave_coin.Tcp.{Tcp}

module _ ⦃t : Tcp⦄ where
  -- What a turn of one of the loops works on.
  abbrev pub link : NClient → Node → Link t.Client
  link nc node = record { nc = nc; handed = []; output = node.output }

  -- The node after a turn of one of the loops of its connection `nc`.
  abbrev pub after_turn : Bytes → Turn → List NClient → NClient → List NClient → Node → Node
  after_turn a x before nc behind node =
      let l = turn a x (link nc node) in
      record node {
        active_clients = before ++ l.nc ∷ behind;
        output = l.output;
        sent = node.sent ++ map (λ p. (nc.server_ip, p)) l.handed;
      }

  pub data Event (net : Net) : Net → Type 0 where
    goes_on : {next : Net} → Step net next → Event net next
    -- A thread's `connectTo` fails.
    fails :
        (a b : Bytes)
        → 0 < pending b (net.nodes a).connecting
        → Event net (record net {
          nodes = put a (initialize_client_connection false a b (net.nodes a)) net.nodes;
        })
    -- A round of the heartbeat loop, which drops the clients that were not heard.
    drops : (b : Bytes) → Event net (record net { nodes = put b (sweep (net.nodes b)) net.nodes })
    -- The TCP client finds that its connection was closed.
    closes :
        (a : Bytes)
        → Event net (record net { nodes = put a (disconnected (net.nodes a)) net.nodes })
    -- A turn of one of the loops of a connection. A message that it sends is on its way by a step of its own.
    turned :
        (a : Bytes) (x : Turn) (before behind : List NClient) (nc : NClient)
        → (net.nodes a).active_clients ≡ before ++ nc ∷ behind
        → Event net
            (record net { nodes = put a (after_turn a x before nc behind (net.nodes a)) net.nodes })
    -- A round of the main loop of `Init` ends.
    joins :
        (a : Bytes) (rest : List NClient)
        → join_first (net.nodes a).active_clients ≡ some rest
        → Event net (record net {
          nodes = put a (record (net.nodes a) { active_clients = rest }) net.nodes;
        })

  -- A history in which `P` holds of every network that it comes to.
  pub data Always (P : Net → Type 0) (net : Net) : Net → Type 0 where
    at_first : Always P net net
    and_event : {mid last : Net} → Always P net mid → Event mid last → P last → Always P net last

  -- The first connection of `a` has not ended.
  pub record FirstLives (a : Bytes) (net : Net) : Type 0 where
    pub first : NClient
    pub others : List NClient
    pub in_front : (net.nodes a).active_clients ≡ first ∷ others
    pub lives : first.alive ≡ true
