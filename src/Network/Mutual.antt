-- ===== src/Network/Mutual.antt =====
-- The handshake of jumbopacket.cpp: "your client connects to my server, my client will connect to your
-- server", over any number of nodes and whatever order their threads and messages take.
use dave_coin.Base.{◌↔◌, sym, subst, inl, inr}
use dave_coin.Bytes.{Bytes}
use dave_coin.Network.{
  after_establishing, Net, IsActive, IsDialing, IsClient, IsArriving, IsPoked, Step, requests,
  establishes, accepts, sends, delivers, rounds, Steps, no_step, and_one,
}
use dave_coin.Network.Change.{Change, Mutual, Change-Mutual}
use dave_coin.Network.Establish.{established-Change}
use dave_coin.Network.Moves.{
  requests-Change, sends-Change, rounds-Change, accepts-Change, delivers-Change,
}
use dave_coin.Tcp.{Tcp}

module _ ⦃t : Tcp⦄ where
  pub Step-Change : (net net' : Net) → Step net net' → Change net net'
  Step-Change net net' (requests a b) = requests-Change a b net
  Step-Change net net' (establishes a b node some_thread e) =
      subst (λ n. Change net (after_establishing a b net n)) (sym e)
        (established-Change a b net some_thread)
  Step-Change net net' (accepts a b node before behind client tserver e same h) =
      accepts-Change a b net node before behind client tserver e same h
  Step-Change net net' (sends letter) = sends-Change letter net
  Step-Change net net' (delivers letter node before behind client e same h) =
      delivers-Change letter net node before behind client e same h
  Step-Change net net' (rounds b all_heard) = rounds-Change b net all_heard

  -- No node is connected to another.
  pub record IsFresh (net : Net) : Type 0 where
    pub none_active : (a b : Bytes) → ¬ IsActive a b net
    pub none_client : (a b : Bytes) → ¬ IsClient a b net
    pub none_arriving : (a b : Bytes) → ¬ IsArriving a b net

  -- No thread is connecting, no connection waits to be accepted, and no poke is on its way.
  pub record IsSettled (net : Net) : Type 0 where
    pub none_dialing : (a b : Bytes) → ¬ IsDialing a b net
    pub all_accepted : (a b : Bytes) → ¬ IsArriving a b net
    pub none_poked : (a b : Bytes) → ¬ IsPoked a b net

  IsFresh-Mutual : (net : Net) → IsFresh net → Mutual net
  IsFresh-Mutual net fresh = record {
    client_active = λ a b h. absurd (fresh.none_client a b h);
    arriving_active = λ a b h. absurd (fresh.none_arriving a b h);
    answered = λ a b h. absurd (fresh.none_active a b h);
    listened = λ a b h. absurd (fresh.none_active a b h);
  }

  Steps-Mutual : (net net' : Net) → Steps net net' → Mutual net → Mutual net'
  Steps-Mutual net _ no_step h = h
  Steps-Mutual net _ (and_one {mid} {last} r s) h =
      Change-Mutual mid last (Step-Change mid last s) (Steps-Mutual net mid r h)

  settled-back :
      (net : Net) → Mutual net → IsSettled net → (a b : Bytes) → IsActive a b net → IsActive b a net
  settled-back net m settled a b h = elim (m.answered a b h) [
    | inl client ↦ m.client_active b a client
    | inr (inl poked) ↦ absurd (settled.none_poked a b poked)
    | inr (inr (inl dialing)) ↦ absurd (settled.none_dialing b a dialing)
    | inr (inr (inr active)) ↦ active
  ]

  settled-client :
      (net : Net) → Mutual net → IsSettled net → (a b : Bytes) → IsActive a b net → IsClient a b net
  settled-client net m settled a b h = elim (m.listened a b h) [
    | inl arriving ↦ absurd (settled.all_accepted a b arriving)
    | inr client ↦ client
  ]

  -- Start with nodes of which none is connected to another, and let them request connections, connect,
  -- accept, send anything and handle what arrives, in any order, as long as each `connectTo` succeeds and no round
  -- of a heartbeat loop drops a client. Whenever no thread is connecting, no connection waits to be
  -- accepted and no poke is on its way, a node is connected to another exactly when that one is connected to it, and
  -- exactly when it is a client of that one's server.
  pub Steps-mutual :
      (net net' : Net) (a b : Bytes)
      → Steps net net'
      → IsFresh net
      → IsSettled net'
      → (IsActive a b net' ↔ IsActive b a net') × (IsActive a b net' ↔ IsClient a b net')
  Steps-mutual net net' a b steps fresh settled =
      let m = Steps-Mutual net net' steps (IsFresh-Mutual net fresh) in
      (
        (settled-back net' m settled a b, settled-back net' m settled b a),
        (settled-client net' m settled a b, m.client_active a b),
      )
