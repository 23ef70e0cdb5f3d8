-- ===== src/Node.antt =====
-- The state of a node: the global `server` of server.cpp, the global `active_clients` of client.cpp with
-- the threads that are still connecting, and what was printed and sent.
use dave_coin.Base.{true, false, if◌then◌else◌, List, [], ◌∷◌, ◌++◌, Bool}
use dave_coin.Bytes.{Bytes}
use dave_coin.Dict.{same_bytes, Dict}
use dave_coin.Packet.{EncodedPacket}
use dave_coin.Tcp.{Tcp}

-- A line printed on `std::cout` or `std::cerr`.
pub data Notice : Type 0 where
  -- server.cpp
  new_client killed_client server_text : Bytes → Notice
  server_invalid : Notice
  -- client.cpp
  no_connection connected send_failed client_text : Bytes → Notice
  client_block client_invalid client_disconnected : Notice

-- The fields of `NClient` that the code reads and writes again.
pub record NClient : Type 0 where
  pub server_ip : Bytes
  pub alive : Bool

module _ ⦃t : Tcp⦄ where
  -- The queue `messages` is never used, and the miner has no state.
  pub record NServer : Type 0 where
    pub tserver : t.Server
    pub connected_clients : Dict t.Client
    pub client_heartbeats : Dict Bool

  pub record Node : Type 0 where
    pub server : NServer
    pub active_clients : List NClient
    -- Addresses for which a thread runs `initialize_client_connection` and has not connected yet.
    pub connecting : List Bytes
    pub output : List Notice
    -- What was sent to which server.
    pub sent : List (Bytes × EncodedPacket t.Client)

  unfoldable pub print : Notice → Node → Node
  print n node = record node { output = node.output ++ n ∷ [] }

  -- `NodeServer::HasClientWithIP`, on the server's `connected_clients`.
  unfoldable pub has_client_with_ip : Bytes → Dict t.Client → Bool
  has_client_with_ip ip [] = false
  has_client_with_ip ip ((j, client) ∷ rest) =
      if same_bytes j ip then true else has_client_with_ip ip rest
