-- ===== src/Client/Loops.antt =====
-- The two loops of a connection's threads in client.cpp: `keep_alive`, and the one that sends messages.
-- They share the flag `alive`, and end when a message cannot be sent. A turn is one round of either; it
-- carries whether `SendMessage` succeeds, and turns of the two threads come in any order.
use dave_coin.Base.{
  ◌≡◌, refl, sym, ap, ◌∙◌, List, [], ◌∷◌, ◌++◌, Bool, true, false, ◌&&◌, map, if◌then◌else◌,
  append-nil, append_assoc, Bool-cases, inl, inr,
}
use dave_coin.Bytes.{Bytes}
use dave_coin.Node.{NClient, Notice, send_failed}
use dave_coin.Packet.{EncodedPacket, serialize_heartbeat, serialize_simple_string}

-- A connection, what was handed to `SendMessage`, and what was printed.
pub record Link (C : Type 0) : Type 0 where
  pub nc : NClient
  pub handed : List (EncodedPacket C)
  pub output : List Notice

-- "hello from client ".
abbrev pub hello_text : Bytes
hello_text =
    104 ∷ 101 ∷ 108 ∷ 108 ∷ 111 ∷ 32 ∷ 102 ∷ 114 ∷ 111 ∷ 109 ∷ 32 ∷ 99 ∷ 108 ∷ 105 ∷ 101 ∷ 110 ∷ 116
    ∷ 32 ∷ []

-- A round of either loop.
pub data Turn : Type 0 where
  beat hello : Bool → Turn

module _ {C : Type 0} where
  -- `NClient::SendMessage`; its result is the rounds' argument.
  abbrev pub hand : EncodedPacket C → Link C → Link C
  hand message l = record l { handed = l.handed ++ message ∷ [] }

  unfoldable pub keep_alive_round : Bool → Link C → Link C
  keep_alive_round success l =
      let nc = l.nc in
      if nc.alive
      then record (hand serialize_heartbeat l) {
        nc = if success then nc else record nc { alive = false };
      }
      else l

  unfoldable pub message_round : Bytes → Bool → Link C → Link C
  message_round my_ip success l =
      let nc = l.nc in
      if nc.alive
      then record (hand (serialize_simple_string (hello_text ++ my_ip)) l) {
        nc = if success then nc else record nc { alive = false };
        output = if success then l.output else l.output ++ send_failed nc.server_ip ∷ [];
      }
      else l

  unfoldable pub turn : Bytes → Turn → Link C → Link C
  unfolding keep_alive_round message_round
  turn my_ip (beat success) l = keep_alive_round success l
  turn my_ip (hello success) l = message_round my_ip success l

  unfoldable pub turns : Bytes → List Turn → Link C → Link C
  turns my_ip [] l = l
  turns my_ip (x ∷ xs) l = turns my_ip xs (turn my_ip x l)

  -- What a turn sends.
  abbrev pub packet : Bytes → Turn → EncodedPacket C
  packet my_ip (beat success) = serialize_heartbeat
  packet my_ip (hello success) = serialize_simple_string (hello_text ++ my_ip)

abbrev pub succeeds : Turn → Bool
succeeds (beat success) = success
succeeds (hello success) = success

-- The turns up to the first that fails, with that one.
abbrev pub until_failure : List Turn → List Turn
until_failure [] = []
until_failure (x ∷ xs) = x ∷ (if succeeds x then until_failure xs else [])

abbrev pub all_succeed : List Turn → Bool
all_succeed [] = true
all_succeed (x ∷ xs) = succeeds x && all_succeed xs

module _ {C : Type 0} where
  turn-dead : (my_ip : Bytes) (x : Turn) (l : Link C) → l.nc.alive ≡ false → turn my_ip x l ≡ l
  unfolding turn keep_alive_round message_round
  turn-dead my_ip (beat s) l h = rw h refl
  turn-dead my_ip (hello s) l h = rw h refl

  turns-dead :
      (my_ip : Bytes) (xs : List Turn) (l : Link C) → l.nc.alive ≡ false → turns my_ip xs l ≡ l
  unfolding turns
  turns-dead my_ip [] l h = refl
  turns-dead my_ip (x ∷ xs) l h =
      ap (turns my_ip xs) (turn-dead my_ip x l h) ∙ turns-dead my_ip xs l h

  turn-live :
      (my_ip : Bytes) (x : Turn) (l : Link C)
      → l.nc.alive ≡ true
      → ((turn my_ip x l).handed ≡ l.handed ++ packet my_ip x ∷ [])
        × ((turn my_ip x l).nc.alive ≡ succeeds x)
  unfolding turn keep_alive_round message_round
  turn-live my_ip (beat true) l h = (rw h refl, rw h refl)
  turn-live my_ip (beat false) l h = (rw h refl, rw h refl)
  turn-live my_ip (hello true) l h = (rw h refl, rw h refl)
  turn-live my_ip (hello false) l h = (rw h refl, rw h refl)

  -- However the turns of the two loops come after each other on a connection that is alive, what is
  -- handed to `SendMessage` is the packets of the turns up to the first that fails, and the connection
  -- is alive at the end exactly when none failed.
  pub turns_lem :
      (my_ip : Bytes) (xs : List Turn) (l : Link C)
      → l.nc.alive ≡ true
      → ((turns my_ip xs l).handed ≡ l.handed ++ map (packet my_ip) (until_failure xs))
        × ((turns my_ip xs l).nc.alive ≡ all_succeed xs)
  unfolding turns
  turns_lem my_ip [] l h = (sym (append-nil l.handed), h)
  turns_lem my_ip (x ∷ xs) l h =
      let (sent, alive) = turn-live my_ip x l h in
      let next = turn my_ip x l in
      elim (Bool-cases (succeeds x)) [
        | inl y ↦
            let (ih, ih') = turns_lem my_ip xs next (alive ∙ y) in
            (
              ih
                  ∙ ap (λ q. q ++ map (packet my_ip) (until_failure xs)) sent
                  ∙ append_assoc l.handed (packet my_ip x ∷ []) _
                  ∙ rw y refl,
              ih' ∙ rw y refl,
            )
        | inr n ↦
            let dead = turns-dead my_ip xs next (alive ∙ n) in
            (
              ap (λ (k : Link C). k.handed) dead ∙ sent ∙ rw n refl,
              ap (λ (k : Link C). k.nc.alive) dead ∙ alive ∙ rw n refl,
            )
      ]
