-- ===== src/Tests/Rounds.antt =====
-- A round over two clients, of which one was heard, with a heartbeat between the visits.
use dave_coin.Base.{inl, ◌≡◌, refl, none, some, if◌then◌else◌}
use dave_coin.Bytes.{Bytes, ok, to_le, load, from_le}
use dave_coin.Dict.{insert, lookup, same_bytes, before}
use dave_coin.Dict.Cursor.{next_key}
use dave_coin.Packet.{client_heartbeat, serialize_heartbeat, read_header}
use dave_coin.Server.{receive_message}
use dave_coin.Server.Round.{visit, clear_heartbeats, Round, begins, meanwhile, visits}
use dave_coin.Server.Round.Beats.{History-IsConnected}
use dave_coin.Server.Round.History.{History, at_start, and_step, and_round}
use dave_coin.Server.Round.Fair.{Round_lem}
use dave_coin.Server.Steps.{received, IsConnected}
use dave_coin.Server.Sweep.{connection, heard}
use dave_coin.Tests.Hub.{home, away, hub, log_tcp}

home_beats : receive_message home (serialize_heartbeat {C = Bytes}).serial (visit home hub) ≡ ok hub
unfolding receive_message read_header serialize_heartbeat to_le load from_le insert same_bytes
    before visit lookup
home_beats = refl

abbrev disturbed : Round hub none (visit away hub)
unfolding next_key before
disturbed = visits away (
    meanwhile (visits home begins)
      (received home (serialize_heartbeat {C = Bytes}).serial home_beats))

Round_lem_example :
    connection away (clear_heartbeats (visit away hub))
    ≡ (if heard away hub then connection away hub else none)
unfolding before same_bytes disturbed
Round_lem_example = Round_lem away disturbed (refl, tt) ((refl, tt), (tt, tt))

home_at_hub : connection home hub ≡ some home
unfolding lookup same_bytes
home_at_hub = refl

home_beats_first : receive_message home (serialize_heartbeat {C = Bytes}).serial hub ≡ ok hub
unfolding receive_message read_header serialize_heartbeat to_le load from_le insert same_bytes
home_beats_first = refl

heartbeat_header : read_header (serialize_heartbeat {C = Bytes}).serial ≡ ok client_heartbeat
unfolding read_header serialize_heartbeat to_le load from_le
heartbeat_header = refl

-- A heartbeat, and the round.
abbrev evening_round : History hub (clear_heartbeats (visit away hub))
evening_round =
    and_round
      (and_step at_start (received home (serialize_heartbeat {C = Bytes}).serial home_beats_first))
      disturbed

History-IsConnected_example : IsConnected home (clear_heartbeats (visit away hub))
History-IsConnected_example =
    History-IsConnected home evening_round (inl (refl, heartbeat_header), tt) (home, home_at_hub)
