-- ===== src/Tests/Histories.antt =====
-- Histories of a node's server and of one of its connections.
use dave_coin.Base.{◌<◌, arith, ℕ, false, map, ◌++◌, ◌≡◌, refl, [], ◌∷◌, true, inl, ap, ◌*◌, ◌+◌}
use dave_coin.Bytes.{Bytes, ok, to_le, load, from_le}
use dave_coin.Dict.{lookup, insert, same_bytes, before}
use dave_coin.Node.{new_client, print, Node}
use dave_coin.Packet.{serialize_heartbeat, read_header}
use dave_coin.Server.{sweep, accept, receive_message}
use dave_coin.Server.Steps.{received, Reach, accepted, at_first, and_busy, and_sweep, IsConnected}
use dave_coin.Client.{initialize_client_connection, connect_to_server, is_active}
use dave_coin.Client.Loops.{Link, beat, hello, turns, packet, until_failure, all_succeed, turns_lem}
use dave_coin.Server.Spec.{act_all, joins, ends_round, beats}
use dave_coin.Server.Spec.Refines.{view, Reach-refines, actions}
use dave_coin.Client.Dedup.{
  untouched, AtMostOne, pending, requested, settled, and_then, ConnectsAll-AtMostOne,
}
use dave_coin.Server.Timing.{Timed, untimed, IsTimely, beat_period}
use dave_coin.Server.Timing.Latency.{timely-IsConnected}
use dave_coin.Tests.Hub.{home, away, hub, log_tcp}

-- The hub when `away` was heard as well.
abbrev loud : Node
loud = record hub {
  server = record (hub.server) { client_heartbeats = (home, true) ∷ (away, true) ∷ [] };
}

away_beats : receive_message away (serialize_heartbeat {C = Bytes}).serial hub ≡ ok loud
unfolding receive_message read_header serialize_heartbeat to_le load from_le insert same_bytes
    before
away_beats = refl

abbrev empty : Node
empty = record hub { server = record (hub.server) { connected_clients = [] } }

abbrev joined : Node
joined = record empty {
  server = record (empty.server) {
    connected_clients = (away, away) ∷ [];
    client_heartbeats = (home, true) ∷ (away, true) ∷ [];
  };
  output = new_client away ∷ [];
}

away_joins : accept away [] empty ≡ ok joined
unfolding accept print insert same_bytes before
away_joins = refl

abbrev line : Link ℕ
line = record { nc = record { server_ip = away; alive = true }; handed = []; output = [] }

turns_lem_example :
    ((turns home (beat true ∷ hello false ∷ beat true ∷ []) line).handed
      ≡ [] ++ map (packet home) (until_failure (beat true ∷ hello false ∷ beat true ∷ [])))
    × ((turns home (beat true ∷ hello false ∷ beat true ∷ []) line).nc.alive
        ≡ all_succeed (beat true ∷ hello false ∷ beat true ∷ []))
turns_lem_example = turns_lem home (beat true ∷ hello false ∷ beat true ∷ []) line refl

Reach-refines_example : view (sweep joined) ≡ act_all (ends_round ∷ joins away ∷ []) (view empty)
Reach-refines_example = Reach-refines (and_sweep (and_busy at_first (accepted away [] away_joins)))

dialing_once : AtMostOne hub
dialing_once ip = omega arith

none_pending : pending away hub.connecting ≡ 0
none_pending = refl

one_pending : 0 < pending away (connect_to_server away hub).connecting
unfolding connect_to_server is_active same_bytes
one_pending = omega arith

ConnectsAll-AtMostOne_example :
    AtMostOne (initialize_client_connection true home away (connect_to_server away hub))
ConnectsAll-AtMostOne_example =
    ConnectsAll-AtMostOne hub
      (initialize_client_connection true home away (connect_to_server away hub))
      (and_then (and_then untouched (requested away none_pending))
        (settled true home away one_pending))
      dialing_once

-- A round at second 4, and the heartbeat that was sent at second 0 and arrived at second 1.
abbrev evening : Timed
evening = (4, ends_round) ∷ (1, beats away) ∷ []

abbrev evening_steps : Reach hub (sweep loud)
evening_steps =
    and_sweep
      (and_busy at_first (received away (serialize_heartbeat {C = Bytes}).serial away_beats))

evening-actions : untimed evening ≡ actions evening_steps
unfolding read_header serialize_heartbeat to_le load from_le
evening-actions = refl

evening-IsTimely : IsTimely away 2 (λ k. 1 + beat_period * k) evening
evening-IsTimely = (
  omega arith,
  (tt, tt),
  λ k early.
      let first : 0 ≡ k = omega arith in inl (ap (λ j. (1 + beat_period * j, beats away)) first),
  tt,
)

away_at_hub : IsConnected away hub
unfolding lookup same_bytes
away_at_hub = (away, refl)

timely-IsConnected_example : IsConnected away (sweep loud)
timely-IsConnected_example =
    timely-IsConnected away 0 2 (λ k. 1 + beat_period * k) evening evening_steps evening-actions
      (omega arith) (λ k. (omega arith, omega arith)) (omega arith) evening-IsTimely away_at_hub
