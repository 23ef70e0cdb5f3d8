-- ===== src/Network/Change.antt =====
-- What holds between any two nodes of a network, and what a step has to do to keep it.
use dave_coin.Base.{◌⊎◌, inl, inr}
use dave_coin.Bytes.{Bytes}
use dave_coin.Network.{Net, IsActive, IsDialing, IsClient, IsArriving, IsPoked}
use dave_coin.Tcp.{Tcp}

module _ ⦃t : Tcp⦄ where
  -- Whoever is a client, or arrives, has its connection. Behind a connection there is one back, or there
  -- will be, or the other side listens already.
  pub record Mutual (net : Net) : Type 0 where
    pub client_active : (a b : Bytes) → IsClient a b net → IsActive a b net
    pub arriving_active : (a b : Bytes) → IsArriving a b net → IsActive a b net
    pub answered :
        (a b : Bytes)
        → IsActive a b net
        → IsClient b a net ⊎ IsPoked a b net ⊎ IsDialing b a net ⊎ IsActive b a net
    pub listened : (a b : Bytes) → IsActive a b net → IsArriving a b net ⊎ IsClient a b net

  -- What a step may do: nothing is lost but what it turns into something else, and what is new has a reason.
  pub record Change (net net' : Net) : Type 0 where
    pub active : (a b : Bytes) → IsActive a b net → IsActive a b net'
    pub client : (a b : Bytes) → IsClient a b net → IsClient a b net'
    pub arriving : (a b : Bytes) → IsArriving a b net → IsArriving a b net' ⊎ IsClient a b net'
    pub poked :
        (a b : Bytes) → IsPoked a b net → IsPoked a b net' ⊎ IsDialing b a net' ⊎ IsActive b a net'
    pub dialing : (a b : Bytes) → IsDialing a b net → IsDialing a b net' ⊎ IsActive a b net'
    pub new_active :
        (a b : Bytes)
        → IsActive a b net'
        → IsActive a b net ⊎ (IsArriving a b net' × (IsClient b a net' ⊎ IsPoked a b net'))
    pub new_client : (a b : Bytes) → IsClient a b net' → IsClient a b net ⊎ IsArriving a b net
    pub new_arriving : (a b : Bytes) → IsArriving a b net' → IsArriving a b net ⊎ IsActive a b net'

  answered-Change :
      (a b : Bytes) (net net' : Net)
      → Change net net'
      → IsClient b a net ⊎ IsPoked a b net ⊎ IsDialing b a net ⊎ IsActive b a net
      → IsClient b a net' ⊎ IsPoked a b net' ⊎ IsDialing b a net' ⊎ IsActive b a net'
  answered-Change a b net net' c (inl x) = inl (c.client b a x)
  answered-Change a b net net' c (inr (inl x)) = inr (c.poked a b x)
  answered-Change a b net net' c (inr (inr (inl x))) = inr (inr (c.dialing b a x))
  answered-Change a b net net' c (inr (inr (inr x))) = inr (inr (inr (c.active b a x)))

  listened-Change :
      (a b : Bytes) (net net' : Net)
      → Change net net'
      → IsArriving a b net ⊎ IsClient a b net
      → IsArriving a b net' ⊎ IsClient a b net'
  listened-Change a b net net' c (inl x) = c.arriving a b x
  listened-Change a b net net' c (inr x) = inr (c.client a b x)

  pub Change-Mutual : (net net' : Net) → Change net net' → Mutual net → Mutual net'
  Change-Mutual net net' c h = record {
    client_active = λ a b x. elim (c.new_client a b x) [
      | inl y ↦ c.active a b (h.client_active a b y)
      | inr y ↦ c.active a b (h.arriving_active a b y)
    ];
    arriving_active = λ a b x. elim (c.new_arriving a b x) [
      | inl y ↦ c.active a b (h.arriving_active a b y)
      | inr y ↦ y
    ];
    answered = λ a b x. elim (c.new_active a b x) [
      | inl y ↦ answered-Change a b net net' c (h.answered a b y)
      | inr (_, inl y) ↦ inl y
      | inr (_, inr y) ↦ inr (inl y)
    ];
    listened = λ a b x. elim (c.new_active a b x) [
      | inl y ↦ listened-Change a b net net' c (h.listened a b y)
      | inr (y, _) ↦ inl y
    ];
  }
