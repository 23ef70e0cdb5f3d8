-- ===== src/Tests/Hub.antt =====
-- A node over a TCP library whose clients are their addresses and whose server is a log.
use dave_coin.Base.{List, [], ◌∷◌, true}
use dave_coin.Bytes.{Bytes}
use dave_coin.Node.{Node}
use dave_coin.Tcp.{Tcp}

pub data Event : Type 0 where
  killed : Bytes → Event
  sent_one : Bytes → Bytes → Event
  sent_all : Bytes → Event

instance abbrev pub log_tcp : Tcp
log_tcp = record {
  Client = Bytes;
  get_ip = λ c. c;
  is_connected = λ c. true;
  Server = List Event;
  kill_client = λ s c. killed c ∷ s;
  send_to_client = λ s c m. sent_one c m ∷ s;
  subscribe = λ s ip. s;
  send_to_all_clients = λ s m. sent_all m ∷ s;
}

abbrev pub home : Bytes
home = 49 ∷ []

abbrev pub away : Bytes
away = 50 ∷ []

-- Both are connected, and only one was heard.
abbrev pub hub : Node
hub = record {
  server = record {
    tserver = [];
    connected_clients = (home, home) ∷ (away, away) ∷ [];
    client_heartbeats = (home, true) ∷ [];
  };
  active_clients = [];
  connecting = [];
  output = [];
  sent = [];
}
