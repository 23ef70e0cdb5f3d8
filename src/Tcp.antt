-- ===== src/Tcp.antt =====
-- What server.cpp and client.cpp call of the TCP library under src/tcp, a copy of another project's, as
-- an interface: its clients, and its server as a state that each call changes.
use dave_coin.Base.{Bool}
use dave_coin.Bytes.{Bytes}

pub record Tcp : Type 1 where
  -- `Client`, with `getIp()` and `isConnected()`.
  pub Client : Type 0
  pub get_ip : Client → Bytes
  pub is_connected : Client → Bool
  -- `TcpServer`, with `killClient`, `sendToClient` and `sendToAllClients`.
  pub Server : Type 0
  pub kill_client : Server → Client → Server
  pub send_to_client : Server → Client → Bytes → Server
  pub send_to_all_clients : Server → Bytes → Server
  -- `subscribe` of an observer with that `wantedIp`.
  pub subscribe : Server → Bytes → Server
