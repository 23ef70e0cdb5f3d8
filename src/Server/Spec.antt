-- ===== src/Server/Spec.antt =====
-- What the server promises, without maps, packets and loops: which addresses are connected, which of them
-- were heard since the last round, and what each event does to both.
pub mod Refines
use dave_coin.Base.{List, [], ◌∷◌, Bool, true, false, Option, none, some, if◌then◌else◌}
use dave_coin.Bytes.{Bytes}
use dave_coin.Dict.{same_bytes}
use dave_coin.Tcp.{Tcp}

module _ ⦃t : Tcp⦄ where
  pub record View : Type 0 where
    pub client_at : Bytes → Option t.Client
    pub was_heard : Bytes → Bool

  -- `stays` is for what does not concern the server's clients.
  pub data Action : Type 0 where
    joins : t.Client → Action
    beats : Bytes → Action
    stays ends_round : Action

  unfoldable pub act : Action → View → View
  act (joins client) v = record {
    client_at = λ ip. if same_bytes (t.get_ip client) ip then some client else v.client_at ip;
    was_heard = λ ip. if same_bytes (t.get_ip client) ip then true else v.was_heard ip;
  }
  act (beats j) v = record v { was_heard = λ ip. if same_bytes j ip then true else v.was_heard ip }
  act stays v = v
  act ends_round v = record {
    client_at = λ ip. if v.was_heard ip then v.client_at ip else none;
    was_heard = λ ip. false;
  }

  -- The actions of a history, the last one first.
  unfoldable pub act_all : List Action → View → View
  unfolding act
  act_all [] v = v
  act_all (x ∷ xs) v = act x (act_all xs v)
