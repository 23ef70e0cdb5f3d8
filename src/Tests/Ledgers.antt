-- ===== src/Tests/Ledgers.antt =====
-- A client that comes twice from one address, and a round that kills another.
use dave_coin.Base.{◌≡◌, refl, [], ◌∷◌, ◌++◌, true, none}
use dave_coin.Bytes.{ok}
use dave_coin.Dict.{lookup, insert, same_bytes, before}
use dave_coin.Node.{print, new_client, Node}
use dave_coin.Server.{accept, sweep}
use dave_coin.Dict.Cursor.{next_key}
use dave_coin.Server.Round.{Round, begins, visits, visit, clear_heartbeats}
use dave_coin.Server.Round.History.{History, at_start, and_step, and_round}
use dave_coin.Server.Steps.{Reach, accepted, at_first, and_busy, and_sweep}
use dave_coin.Server.Sweep.Kills.{kill_all, farewells, sweep_lem}
use dave_coin.Tests.Hub.{home, away, hub, log_tcp}

sweep_lem_example :
    ((sweep hub).server.connected_clients ≡ (home, home) ∷ [])
    × ((sweep hub).server.tserver ≡ kill_all ((away, away) ∷ []) [])
    × ((sweep hub).output ≡ [] ++ farewells ((away, away) ∷ []))
    × ((sweep hub).server.client_heartbeats ≡ [])
unfolding same_bytes before lookup
sweep_lem_example = sweep_lem hub ((refl, tt), (tt, tt))

-- No client yet, and then one, and again.
abbrev nobody : Node
nobody = record hub {
  server = record { tserver = []; connected_clients = []; client_heartbeats = [] };
}

abbrev once : Node
once = record nobody {
  server = record {
    tserver = [];
    connected_clients = (away, away) ∷ [];
    client_heartbeats = (away, true) ∷ [];
  };
  output = new_client away ∷ [];
}

abbrev twice : Node
twice = record once { output = new_client away ∷ new_client away ∷ [] }

first_joins : accept away [] nobody ≡ ok once
unfolding accept print insert
first_joins = refl

second_joins : accept away [] once ≡ ok twice
unfolding accept print insert same_bytes
second_joins = refl

abbrev night : Reach nobody (sweep (sweep twice))
night = and_sweep (
    and_sweep
      (and_busy (and_busy at_first (accepted away [] first_joins)) (accepted away [] second_joins)))

-- Away is found heard in one round, and killed in the next.
abbrev first_round : Round twice none (visit away twice)
unfolding next_key before
first_round = visits away begins

abbrev after_first : Node
after_first = clear_heartbeats (visit away twice)

abbrev second_round : Round after_first none (visit away after_first)
unfolding next_key before visit lookup same_bytes clear_heartbeats
second_round = visits away begins

abbrev two_rounds : History nobody (clear_heartbeats (visit away after_first))
two_rounds =
    and_round
      (and_round
        (and_step (and_step at_start (accepted away [] first_joins))
          (accepted away [] second_joins))
        first_round)
      second_round
