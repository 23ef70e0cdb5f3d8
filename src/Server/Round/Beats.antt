-- ===== src/Server/Round/Beats.antt =====
-- Who stays connected through any history whose rounds are taken apart.
use dave_coin.Base.{ℕ, ◌≡◌, refl, sym, ap, ◌∙◌, ◌⊎◌, true, arith, inl, inr}
use dave_coin.Bytes.{Bytes, ok}
use dave_coin.Dict.{same_bytes_iff, lookup}
use dave_coin.Node.{Node, NServer}
use dave_coin.Packet.{client_heartbeat, read_header}
use dave_coin.Server.Messages.{server-receive_message, answered-insert, noted}
use dave_coin.Server.Round.Fair.{Round-IsConnected}
use dave_coin.Server.Round.History.{History, at_start, and_step, and_round}
use dave_coin.Server.Steps.{
  Event, accepted, received, IsConnected, Event-IsConnected, Event-heard, heard-accept,
}
use dave_coin.Server.Sweep.{heard, answered}
use dave_coin.Tcp.{Tcp}

module _ ⦃t : Tcp⦄ where
  -- A client at `ip` is accepted, or a packet whose header names a heartbeat comes from one.
  abbrev pub IsBeat : {a b : Node} → Bytes → Event a b → Type 0
  IsBeat ip (accepted client tserver e) = t.get_ip client ≡ ip
  IsBeat ip (received client raw e) =
      (t.get_ip client ≡ ip) × (read_header raw ≡ ok client_heartbeat)

  -- There was such an event since the last round ended.
  abbrev pub HasBeat : {a b : Node} → Bytes → History a b → Type 0
  HasBeat ip at_start = ⊥
  HasBeat ip (and_step h e) = IsBeat ip e ⊎ HasBeat ip h
  HasBeat ip (and_round h r) = ⊥

  -- There was one between any two rounds, and before the first.
  abbrev pub IsSteady : {a b : Node} → Bytes → History a b → Type 0
  IsSteady ip at_start = Unit
  IsSteady ip (and_step h e) = IsSteady ip h
  IsSteady ip (and_round h r) = HasBeat ip h × IsSteady ip h

  ok_injective : {m n : ℕ} → ok m ≡ ok n → m ≡ n
  ok_injective e = cc

  Event-IsBeat : (ip : Bytes) {a b : Node} (e : Event a b) → IsBeat ip e → heard ip b ≡ true
  Event-IsBeat ip {a} {b} (accepted client tserver e) same =
      heard-accept ip client tserver a b e
      ∙ ground (arith, same, same_bytes_iff (t.get_ip client) ip)
  Event-IsBeat ip {a} {b} (received client raw e) (same, beat) =
      let (k, header, s) = server-receive_message client raw a b e in
      let k_beat : k ≡ client_heartbeat = ok_injective (sym header ∙ beat) in
      let s' : b.server ≡ noted (t.get_ip client) a.server = s ∙ rw k_beat refl in
      ap (λ (x : NServer). answered (lookup ip x.client_heartbeats)) s'
      ∙ answered-insert (t.get_ip client) ip a.server.client_heartbeats
      ∙ ground (arith, same, same_bytes_iff (t.get_ip client) ip)

  HasBeat-heard : (ip : Bytes) {a b : Node} (h : History a b) → HasBeat ip h → heard ip b ≡ true
  HasBeat-heard ip at_start beat = absurd beat
  HasBeat-heard ip (and_step h e) (inl beat) = Event-IsBeat ip e beat
  HasBeat-heard ip (and_step h e) (inr earlier) = Event-heard ip e (HasBeat-heard ip h earlier)
  HasBeat-heard ip (and_round h r) beat = absurd beat

  -- An address that is connected stays so through any history in which, before each round and after the end of
  -- the one before, a client is accepted there or a heartbeat comes from there, whatever else the server
  -- accepts and receives, between the rounds and while they run.
  pub History-IsConnected :
      (ip : Bytes) {a b : Node} (h : History a b)
      → IsSteady ip h
      → IsConnected ip a
      → IsConnected ip b
  History-IsConnected ip at_start steady there = there
  History-IsConnected ip (and_step h e) steady there =
      Event-IsConnected ip e (History-IsConnected ip h steady there)
  History-IsConnected ip (and_round h r) (beat, steady) there =
      Round-IsConnected ip r (HasBeat-heard ip h beat) (History-IsConnected ip h steady there)
