-- ===== src/Tests/Networks.antt =====
-- Two nodes, of which one connects to the other.
use dave_coin.Base.{◌<◌, ◌≡◌, ◌↔◌, refl, [], ◌∷◌, ◌++◌, true, arith}
use dave_coin.Bytes.{Bytes, ok, to_le, load, from_le}
use dave_coin.Client.{is_active, connect_to_server, initialize_client_connection, finished}
use dave_coin.Client.Dedup.{pending}
use dave_coin.Dict.{insert, lookup, same_bytes}
use dave_coin.Network.{
  Step, Net, Letter, put, after_establishing, IsActive, IsClient, Steps, no_step, and_one,
  establishes, accepts, delivers,
}
use dave_coin.Network.Puts.{put-elim}
use dave_coin.Network.Mutual.{IsFresh, IsSettled, Steps-mutual}
use dave_coin.Node.{Node, print, has_client_with_ip, connected, new_client}
use dave_coin.Packet.{serialize_client_poke, read_header}
use dave_coin.Server.{accept, receive_message}
use dave_coin.Server.Steps.{IsConnected}
use dave_coin.Tests.Hub.{home, away, log_tcp}

abbrev pub blank : Node
blank = record {
  server = record { tserver = []; connected_clients = []; client_heartbeats = [] };
  active_clients = [];
  connecting = [];
  output = [];
  sent = [];
}

abbrev pub dialing : Node
dialing = record blank { connecting = away ∷ [] }

abbrev pub net0 : Net
net0 = record { nodes = put home dialing (λ j. blank); arriving = []; flight = [] }

-- Home has connected, and pokes.
abbrev pub home1 : Node
home1 = record blank {
  active_clients = record { server_ip = away; alive = true } ∷ [];
  output = connected away ∷ [];
  sent = (away, serialize_client_poke home) ∷ [];
}

abbrev pub net1 : Net
net1 = after_establishing home away net0 home1

pub home_dials : 0 < pending away (net0.nodes home).connecting
unfolding same_bytes
home_dials = omega arith

pub home_connects : home1 ≡ initialize_client_connection true home away (net0.nodes home)
unfolding initialize_client_connection same_bytes has_client_with_ip print finished
home_connects = refl

-- Away has accepted home.
abbrev away1 : Node
away1 = record blank {
  server = record {
    tserver = [];
    connected_clients = (home, home) ∷ [];
    client_heartbeats = (home, true) ∷ [];
  };
  output = new_client home ∷ [];
}

abbrev net2 : Net
net2 = record net1 { nodes = put away away1 net1.nodes; arriving = [] }

away_accepts : accept home [] (net1.nodes away) ≡ ok away1
unfolding accept print insert same_bytes
away_accepts = refl

-- Away was poked.
abbrev away2 : Node
away2 = record away1 { connecting = home ∷ [] }

abbrev poke : Letter
poke = record { from = home; to = away; raw = (serialize_client_poke {C = Bytes} home).serial }

abbrev net3 : Net
net3 = record net2 { nodes = put away away2 net2.nodes; flight = [] }

one_letter : net2.flight ≡ [] ++ poke ∷ []
unfolding same_bytes
one_letter = refl

away_poked : receive_message home poke.raw (net2.nodes away) ≡ ok away2
unfolding receive_message read_header serialize_client_poke to_le load from_le same_bytes
    connect_to_server is_active
away_poked = refl

-- Away has connected. It does not poke, since home is its client.
abbrev away3 : Node
away3 = record away1 {
  active_clients = record { server_ip = home; alive = true } ∷ [];
  output = new_client home ∷ connected home ∷ [];
}

abbrev net4 : Net
net4 = after_establishing away home net3 away3

away_dials : 0 < pending home (net3.nodes away).connecting
unfolding same_bytes
away_dials = omega arith

away_connects : away3 ≡ initialize_client_connection true away home (net3.nodes away)
unfolding initialize_client_connection same_bytes has_client_with_ip print finished
away_connects = refl

-- Home has accepted away.
abbrev home2 : Node
home2 = record home1 {
  server = record {
    tserver = [];
    connected_clients = (away, away) ∷ [];
    client_heartbeats = (away, true) ∷ [];
  };
  output = connected away ∷ new_client away ∷ [];
}

abbrev net5 : Net
net5 = record net4 { nodes = put home home2 net4.nodes; arriving = [] }

home_accepts : accept away [] (net4.nodes home) ≡ ok home2
unfolding accept print insert same_bytes
home_accepts = refl

abbrev pub call : Step net0 net1
call = establishes home away home1 home_dials home_connects

called : Steps net0 net2
called =
    and_one (and_one no_step call) (accepts home away away1 [] [] home [] refl refl away_accepts)

meeting : Steps net0 net5
meeting =
    and_one
      (and_one (and_one called (delivers poke away2 [] [] home one_letter refl away_poked))
        (establishes away home away3 away_dials away_connects))
      (accepts away home home2 [] [] away [] refl refl home_accepts)

net0-IsFresh : IsFresh net0
unfolding is_active lookup
net0-IsFresh = record {
  none_active = λ a b.
      put-elim (λ j n. ¬ (is_active b n.active_clients ≡ true)) home dialing (λ j. blank) a
        (λ h. cc) (λ _ h. cc);
  none_client = λ a b.
      put-elim (λ j n. ¬ IsConnected a n) home dialing (λ j. blank) b (λ (x, h). cc)
        (λ _ (x, h). cc);
  none_arriving = λ a b h. h;
}

net5-IsSettled : IsSettled net5
unfolding same_bytes
net5-IsSettled = record {
  none_dialing = λ a b.
      put-elim (λ j n. ¬ (0 < pending b n.connecting)) home home2 net4.nodes a (λ h. omega arith)
        (λ not_home.
          put-elim (λ j n. ¬ (0 < pending b n.connecting)) away away3 net3.nodes a
            (λ h. omega arith) (λ not_away. rw (not_away, not_home) (λ h. omega arith)));
  all_accepted = λ a b h. h;
  none_poked = λ a b h. h;
}

Steps-mutual_example :
    (IsActive home away net5 ↔ IsActive away home net5)
    × (IsActive home away net5 ↔ IsClient home away net5)
Steps-mutual_example = Steps-mutual net0 net5 home away meeting net0-IsFresh net5-IsSettled
