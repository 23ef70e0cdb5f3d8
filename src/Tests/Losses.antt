-- ===== src/Tests/Losses.antt =====
-- Home, which is connected to another node and to away, after away has dropped it.
use dave_coin.Base.{refl, [], ◌∷◌, true, false, arith}
use dave_coin.Client.{is_active, connect_to_server}
use dave_coin.Client.Loops.{beat, turn, keep_alive_round}
use dave_coin.Dict.{lookup, same_bytes}
use dave_coin.Network.{Net, put, requests}
use dave_coin.Network.Losses.{Always, FirstLives, after_turn, at_first, and_event, goes_on, turned}
use dave_coin.Network.Losses.Stale.{IsStale}
use dave_coin.Network.Losses.Lasts.{Always-IsStale}
use dave_coin.Node.{Node, NClient}
use dave_coin.Tests.Hub.{home, away, log_tcp}

abbrev to_cellar : NClient
to_cellar = record { server_ip = 51 ∷ []; alive = true }

abbrev to_away : NClient
to_away = record { server_ip = away; alive = true }

abbrev quiet : Node
quiet = record {
  server = record { tserver = []; connected_clients = []; client_heartbeats = [] };
  active_clients = [];
  connecting = [];
  output = [];
  sent = [];
}

abbrev dropped : Node
dropped = record quiet { active_clients = to_cellar ∷ to_away ∷ [] }

abbrev before_turn : Net
before_turn = record { nodes = put home dropped (λ j. quiet); arriving = []; flight = [] }

-- The heartbeat to away cannot be sent.
abbrev ended : Node
ended = after_turn home (beat false) (to_cellar ∷ []) to_away [] dropped

abbrev after_beat : Net
after_beat = record before_turn { nodes = put home ended before_turn.nodes }

-- Home is asked to connect to away again.
abbrev after_request : Net
after_request = record after_beat {
  nodes = put home (connect_to_server away ended) after_beat.nodes;
}

before_turn-FirstLives : FirstLives home before_turn
unfolding same_bytes
before_turn-FirstLives = record {
  first = to_cellar;
  others = to_away ∷ [];
  in_front = refl;
  lives = refl;
}

after_beat-FirstLives : FirstLives home after_beat
unfolding same_bytes turn keep_alive_round
after_beat-FirstLives = record {
  first = to_cellar;
  others = record to_away { alive = false } ∷ [];
  in_front = refl;
  lives = refl;
}

after_request-FirstLives : FirstLives home after_request
unfolding same_bytes turn keep_alive_round connect_to_server is_active
after_request-FirstLives = record {
  first = to_cellar;
  others = record to_away { alive = false } ∷ [];
  in_front = refl;
  lives = refl;
}

in_vain : Always (FirstLives home) before_turn after_request
unfolding same_bytes
in_vain =
    and_event
      (and_event at_first (turned home (beat false) (to_cellar ∷ []) [] to_away refl)
        after_beat-FirstLives)
      (goes_on (requests home away)) after_request-FirstLives

before_turn-IsStale : IsStale home away before_turn
unfolding same_bytes is_active lookup
before_turn-IsStale = record {
  kept = refl;
  undialed = λ h. omega arith;
  unarrived = λ h. h;
  unlisted = λ (client, h). cc;
}

Always-IsStale_example : IsStale home away after_request
Always-IsStale_example =
    Always-IsStale home away before_turn after_request in_vain before_turn-FirstLives
      before_turn-IsStale
