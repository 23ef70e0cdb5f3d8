-- ===== src/Network.antt =====
-- Several nodes and what is between them: connections that the other side has not accepted yet, and
-- messages on their way. Each step is one call of the nodes' own code.
pub mod Calm
pub mod Change
pub mod Puts
pub mod Establish
pub mod Moves
pub mod Mutual
pub mod Losses
pub mod Drain
pub mod Online
use dave_coin.Base.{
  Any, ℕ, ◌<◌, ◌≡◌, refl, subst, ◌⊎◌, List, [], ◌∷◌, ◌++◌, Bool, true, false, drop, length, map,
  if◌then◌else◌, inl, inr, Bool-cases,
}
use dave_coin.Bytes.{Bytes, ok}
use dave_coin.Client.{is_active, connect_to_server, initialize_client_connection}
use dave_coin.Client.Dedup.{pending}
use dave_coin.Dict.{same_bytes, same_bytes_iff}
use dave_coin.Node.{Node}
use dave_coin.Packet.{EncodedPacket, read_header, client_poke}
use dave_coin.Server.{accept, receive_message, sweep}
use dave_coin.Server.Steps.{IsConnected}
use dave_coin.Server.Sweep.{heard}
use dave_coin.Tcp.{Tcp}

-- A message on its way.
pub record Letter : Type 0 where
  pub from : Bytes
  pub to : Bytes
  pub raw : Bytes

module _ ⦃t : Tcp⦄ where
  -- The nodes by their addresses.
  pub record Net : Type 0 where
    pub nodes : Bytes → Node
    -- Who has connected to whom, and waits for `acceptClient`.
    pub arriving : List (Bytes × Bytes)
    pub flight : List Letter

  abbrev pub put : Bytes → Node → (Bytes → Node) → Bytes → Node
  put ip node nodes j = if same_bytes ip j then node else nodes j

  -- What the node at `a` has sent, put on its way.
  abbrev pub letters : Bytes → List (Bytes × EncodedPacket t.Client) → List Letter
  letters a = map λ e. record { from = a; to = e.0; raw = e.1.serial }

  -- The connection waits to be accepted, and what the node sent is on its way.
  abbrev pub after_establishing : Bytes → Bytes → Net → Node → Net
  after_establishing a b net node = record {
    nodes = put a node net.nodes;
    arriving = (a, b) ∷ net.arriving;
    flight = letters a (drop (length (net.nodes a).sent) node.sent) ++ net.flight;
  }

  pub data Step (net : Net) : Net → Type 0 where
    -- A line of peers.dat, or any other request for a connection.
    requests :
        (a b : Bytes)
        → Step net (record net { nodes = put a (connect_to_server b (net.nodes a)) net.nodes })
    -- A thread's `connectTo` succeeds.
    establishes :
        (a b : Bytes) (node : Node)
        → 0 < pending b (net.nodes a).connecting
        → node ≡ initialize_client_connection true a b (net.nodes a)
        → Step net (after_establishing a b net node)
    -- The other side's `acceptClient` returns the client.
    accepts :
        (a b : Bytes) (node : Node) (before behind : List (Bytes × Bytes)) (client : t.Client)
        (tserver : t.Server)
        → net.arriving ≡ before ++ (a, b) ∷ behind
        → t.get_ip client ≡ a
        → accept client tserver (net.nodes b) ≡ ok node
        → Step net (record net { nodes = put b node net.nodes; arriving = before ++ behind })
    -- Any node sends anything.
    sends : (letter : Letter) → Step net (record net { flight = letter ∷ net.flight })
    -- A message arrives from a client at the sender's address, alone, in a call of the handler, which returns.
    delivers :
        (letter : Letter) (node : Node) (before behind : List Letter) (client : t.Client)
        → net.flight ≡ before ++ letter ∷ behind
        → t.get_ip client ≡ letter.from
        → receive_message client letter.raw (net.nodes letter.to) ≡ ok node
        → Step net (record net { nodes = put letter.to node net.nodes; flight = before ++ behind })
    -- A round of the heartbeat loop at a node all of whose clients were heard.
    rounds :
        (b : Bytes)
        → ((ip : Bytes) → IsConnected ip (net.nodes b) → heard ip (net.nodes b) ≡ true)
        → Step net (record net { nodes = put b (sweep (net.nodes b)) net.nodes })

  pub data Steps (net : Net) : Net → Type 0 where
    no_step : Steps net net
    and_one : {mid last : Net} → Steps net mid → Step mid last → Steps net last

-- A poke from `a` to `b`.
abbrev pub IsPoke : Bytes → Bytes → Letter → Type 0
IsPoke a b letter = (letter.from ≡ a) × (letter.to ≡ b) × (read_header letter.raw ≡ ok client_poke)

module _ ⦃t : Tcp⦄ where
  -- `a` has a connection to `b`.
  abbrev pub IsActive : Bytes → Bytes → Net → Type 0
  IsActive a b net = is_active b (net.nodes a).active_clients ≡ true

  -- A thread of `a` is connecting to `b`.
  abbrev pub IsDialing : Bytes → Bytes → Net → Type 0
  IsDialing a b net = 0 < pending b (net.nodes a).connecting

  -- `a` is a client of the server of `b`.
  abbrev pub IsClient : Bytes → Bytes → Net → Type 0
  IsClient a b net = IsConnected a (net.nodes b)

  abbrev pub IsArriving : Bytes → Bytes → Net → Type 0
  IsArriving a b net = Any (λ e. e ≡ (a, b)) net.arriving

  abbrev pub IsPoked : Bytes → Bytes → Net → Type 0
  IsPoked a b net = Any (IsPoke a b) net.flight
