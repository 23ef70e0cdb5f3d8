-- ===== src/Server/Round/Ledger.antt =====
-- What becomes of the clients that the server accepts, also of those that it accepts while a round runs.
use dave_coin.Base.{List, [], ◌∷◌, ◌++◌, Option, if◌then◌else◌, Perm}
use mathlib.Core.List.Perm
use dave_coin.Bytes.{Bytes}
use dave_coin.Dict.{Dict}
use dave_coin.Node.{Node}
use dave_coin.Server.Ledger.{at_most_one}
use dave_coin.Server.Round.{Round, begins, meanwhile, visits}
use dave_coin.Server.Round.History.{History, at_start, and_step, and_round}
use dave_coin.Server.Steps.{accepted, received}
use dave_coin.Server.Sweep.{connection, heard}
use dave_coin.Tcp.{Tcp}

module _ ⦃t : Tcp⦄ where
  -- The client that a visit kills.
  abbrev pub visit_killed : Bytes → Node → List t.Client
  visit_killed ip node = if heard ip node then [] else at_most_one (connection ip node)

  -- The clients accepted in a round, those displaced, and those killed, the last one first.
  abbrev pub round_joined : {a b : Node} {i : Option Bytes} → Round a i b → List t.Client
  round_joined begins = []
  round_joined (meanwhile r (accepted client tserver e)) = client ∷ round_joined r
  round_joined (meanwhile r (received client raw e)) = round_joined r
  round_joined (visits ip r) = round_joined r

  abbrev pub round_displaced : {a b : Node} {i : Option Bytes} → Round a i b → List t.Client
  round_displaced begins = []
  round_displaced (meanwhile {b = b} r (accepted client tserver e)) =
      at_most_one (connection (t.get_ip client) b) ++ round_displaced r
  round_displaced (meanwhile r (received client raw e)) = round_displaced r
  round_displaced (visits ip r) = round_displaced r

  abbrev pub round_killed : {a b : Node} {i : Option Bytes} → Round a i b → List t.Client
  round_killed begins = []
  round_killed (meanwhile r e) = round_killed r
  round_killed (visits {b} ip r) = visit_killed ip b ++ round_killed r

  -- The same for a history.
  abbrev pub all_joined : {a b : Node} → History a b → List t.Client
  all_joined at_start = []
  all_joined (and_step h (accepted client tserver e)) = client ∷ all_joined h
  all_joined (and_step h (received client raw e)) = all_joined h
  all_joined (and_round h r) = round_joined r ++ all_joined h

  abbrev pub all_displaced : {a b : Node} → History a b → List t.Client
  all_displaced at_start = []
  all_displaced (and_step {b = b} h (accepted client tserver e)) =
      at_most_one (connection (t.get_ip client) b) ++ all_displaced h
  all_displaced (and_step h (received client raw e)) = all_displaced h
  all_displaced (and_round h r) = round_displaced r ++ all_displaced h

  abbrev pub all_killed : {a b : Node} → History a b → List t.Client
  all_killed at_start = []
  all_killed (and_step h e) = all_killed h
  all_killed (and_round h r) = round_killed r ++ all_killed h

  abbrev kill_each : List t.Client → t.Server → t.Server
  kill_each [] tserver = tserver
  kill_each (client ∷ clients) tserver = kill_each clients (t.kill_client tserver client)

  -- The TCP server after a round that began with `first`: the one that the last `acceptClient` left, or
  -- `first`, after `killClient` of each client killed since, and no other call of it.
  abbrev pub round_tserver : {a b : Node} {i : Option Bytes} → t.Server → Round a i b → t.Server
  round_tserver first begins = first
  round_tserver first (meanwhile r (accepted client tserver e)) = tserver
  round_tserver first (meanwhile r (received client raw e)) = round_tserver first r
  round_tserver first (visits {b} ip r) = kill_each (visit_killed ip b) (round_tserver first r)

  -- The same for a history.
  abbrev pub all_tserver : {a b : Node} → History a b → t.Server
  all_tserver {a} at_start = a.server.tserver
  all_tserver (and_step h (accepted client tserver e)) = tserver
  all_tserver (and_step h (received client raw e)) = all_tserver h
  all_tserver (and_round h r) = round_tserver (all_tserver h) r
