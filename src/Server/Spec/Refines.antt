-- ===== src/Server/Spec/Refines.antt =====
-- The server's code does what its specification says, in any history.
use dave_coin.Base.{ℕ, ◌≡◌, refl, ap, ◌∙◌, List, [], ◌∷◌, ◌==◌, if◌then◌else◌, Bool-cases, inl, inr}
use dave_coin.Bytes.{Bytes, Outcome, ok, throws, fault}
use dave_coin.Dict.{lookup}
use dave_coin.Node.{Node, NServer}
use dave_coin.Packet.{client_heartbeat, read_header}
use dave_coin.Server.{sweep}
use dave_coin.Server.Messages.{server-receive_message, answered-insert}
use dave_coin.Server.Steps.{
  Event, accepted, received, Reach, at_first, and_busy, and_sweep, connection-accept, heard-accept,
}
use dave_coin.Server.Sweep.{connection-sweep, connection, heard, answered}
use dave_coin.Server.Spec.{View, Action, joins, beats, stays, ends_round, act, act_all}
use dave_coin.Tcp.{Tcp}

module _ ⦃t : Tcp⦄ where
  unfoldable pub view : Node → View
  view node = record { client_at = λ ip. connection ip node; was_heard = λ ip. heard ip node }

  View-ext :
      (v w : View)
      → ((ip : Bytes) → v.client_at ip ≡ w.client_at ip)
      → ((ip : Bytes) → v.was_heard ip ≡ w.was_heard ip)
      → v ≡ w
  View-ext v w p q i = record { client_at = λ ip. p ip i; was_heard = λ ip. q ip i }

  -- The part of a server's state that the view shows.
  abbrev view_of : NServer → View
  view_of s = record {
    client_at = λ ip. lookup ip s.connected_clients;
    was_heard = λ ip. answered (lookup ip s.client_heartbeats);
  }

  -- What a message of the type `k` from `client` is to the specification.
  abbrev pub message_action : t.Client → Outcome ℕ → Action
  message_action client (ok k) = if k == client_heartbeat then beats (t.get_ip client) else stays
  message_action client (throws e) = stays
  message_action client fault = stays

  -- The specification's action for an event of the code.
  abbrev pub event_action : {a b : Node} → Event a b → Action
  event_action (accepted client tserver e) = joins client
  event_action (received client raw e) = message_action client (read_header raw)

  view-Event : {a b : Node} (e : Event a b) → view b ≡ act (event_action e) (view a)
  unfolding act view
  view-Event {a} {b} (accepted client tserver e) =
      View-ext _ _ (λ ip. connection-accept ip client tserver a b e)
        (λ ip. heard-accept ip client tserver a b e)
  view-Event {a} {b} (received client raw e) =
      let (k, h, s) = server-receive_message client raw a b e in
      rw h (
        ap view_of s ∙ elim (Bool-cases (k == client_heartbeat)) [
          | inl y ↦ rw y (
              View-ext _ _ (λ ip. refl)
                (λ ip. answered-insert (t.get_ip client) ip a.server.client_heartbeats))
          | inr n ↦ rw n refl
        ])

  view-sweep : (a : Node) → view (sweep a) ≡ act ends_round (view a)
  unfolding act view
  view-sweep a = View-ext _ _ (λ ip. connection-sweep a ip) (λ ip. unfold sweep lookup in refl)

  -- The actions of a history of the code, the last one first.
  abbrev pub actions : {a b : Node} → Reach a b → List Action
  actions at_first = []
  actions (and_busy r e) = event_action e ∷ actions r
  actions (and_sweep r) = ends_round ∷ actions r

  -- Whatever clients the server accepts, whatever bytes they send, and whenever the heartbeat loop makes
  -- its rounds, in any order: which client is connected at which address, and which address was heard
  -- since the last round, is what the specification's actions for these events make of the first state.
  pub Reach-refines : {a b : Node} (r : Reach a b) → view b ≡ act_all (actions r) (view a)
  unfolding act_all
  Reach-refines at_first = refl
  Reach-refines (and_busy r e) = view-Event e ∙ ap (act (event_action e)) (Reach-refines r)
  Reach-refines {a} (and_sweep {b} r) = view-sweep b ∙ ap (act ends_round) (Reach-refines r)
