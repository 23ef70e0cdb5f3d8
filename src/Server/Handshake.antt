-- ===== src/Server/Handshake.antt =====
-- The handshake by which two nodes come to listen to each other.
use dave_coin.Base.{◌≡◌, refl, [], ◌∷◌, ◌++◌, true, false, arith}
use dave_coin.Bytes.{Bytes, ok}
use dave_coin.Client.{connect_to_server, initialize_client_connection}
use dave_coin.Node.{Node, print, has_client_with_ip}
use dave_coin.Packet.{client_poke, read_header, serialize_client_poke}
use dave_coin.Packet.Header.{read_header-packet_of}
use dave_coin.Server.{receive_message, dispatch}
use dave_coin.Tcp.{Tcp}

pub header_poke :
    (C : Type 0) (ip : Bytes)
    → read_header (serialize_client_poke {C = C} ip).serial ≡ ok client_poke
unfolding serialize_client_poke
header_poke C ip = read_header-packet_of C client_poke (_ ∷ ip ∷ []) (omega arith)

module _ ⦃t : Tcp⦄ where
  -- A node `a` that connects to the address `ip`, from which no client is connected to it, sends one
  -- message there, and a node `b` that gets this message from a client asks for a connection to the
  -- client's address, whatever address the message holds.
  pub receive_message-poke :
      (my_ip ip : Bytes) (client : t.Client) (a b : Node)
      → has_client_with_ip ip a.server.connected_clients ≡ false
      → ((initialize_client_connection true my_ip ip a).sent
          ≡ a.sent ++ (ip, serialize_client_poke {C = t.Client} my_ip) ∷ [])
        × (receive_message client (serialize_client_poke {C = t.Client} my_ip).serial b
            ≡ ok (connect_to_server (t.get_ip client) b))
  unfolding initialize_client_connection print receive_message dispatch
  receive_message-poke my_ip ip client a b h = (rw h refl, rw (header_poke t.Client my_ip) refl)
