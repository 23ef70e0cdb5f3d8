-- ===== src/Network/Drain/Among.antt =====
-- Work among the nodes at some addresses stays among them.
use dave_coin.Base.{
  ◌<◌, ◌≡◌, refl, subst, List, [], ◌∷◌, ◌++◌, false, arith, All, inl, inr, Bool-cases, ◌⊎◌,
}
use dave_coin.Bytes.{Bytes}
use dave_coin.Client.{is_active, connect_to_server, finished}
use dave_coin.Client.Dedup.{pending}
use dave_coin.Dict.{same_bytes, same_bytes_iff}
use dave_coin.Network.{Net, Letter, put}
use dave_coin.Network.Drain.{IsIn, IsAmong}
use dave_coin.Network.Puts.{put-elim}
use dave_coin.Node.{Node}
use dave_coin.Tcp.{Tcp}

pub All-middle {ℓ} :
    {A : Type ℓ} (P : A → Type 0) (xs ys : List A) (x : A)
    → All P (xs ++ x ∷ ys)
    → P x × All P (xs ++ ys)
All-middle P [] ys x h = h
All-middle P (z ∷ xs) ys x (p, h) = let (q, k) = All-middle P xs ys x h in (q, (p, k))

pub All-append {ℓ} :
    {A : Type ℓ} (P : A → Type 0) (xs ys : List A) → All P xs → All P ys → All P (xs ++ ys)
All-append P [] ys h k = k
All-append P (x ∷ xs) ys (p, h) k = (p, All-append P xs ys h k)

pub All-pending :
    (P : Bytes → Type 0) (ip : Bytes) (js : List Bytes) → 0 < pending ip js → All P js → P ip
All-pending P ip [] h all = absurd (omega arith)
All-pending P ip (j ∷ js) h (p, all) = elim (Bool-cases (same_bytes j ip)) [
  | inl y ↦ subst P ((same_bytes_iff j ip).0 y) p
  | inr n ↦ let more : 0 < pending ip js = omega (arith, rw n at h) in All-pending P ip js more all
]

pub All-finished :
    (P : Bytes → Type 0) (ip : Bytes) (js : List Bytes) → All P js → All P (finished ip js)
unfolding finished
All-finished P ip [] all = tt
All-finished P ip (j ∷ js) (p, all) = elim (Bool-cases (same_bytes j ip)) [
  | inl y ↦ rw y all
  | inr n ↦ rw n (p, All-finished P ip js all)
]

module _ ⦃t : Tcp⦄ where
  -- What a request for `ip` does to the lists: nothing, or there was no connection and there is a thread.
  pub record Asks (ip : Bytes) (node node' : Node) : Type 0 where
    pub active_kept : node'.active_clients ≡ node.active_clients
    pub asked :
        (node'.connecting ≡ node.connecting)
        ⊎ ((is_active ip node.active_clients ≡ false)
            × (node'.connecting ≡ node.connecting ++ ip ∷ []))

  pub connect_to_server-Asks : (ip : Bytes) (node : Node) → Asks ip node (connect_to_server ip node)
  unfolding connect_to_server
  connect_to_server-Asks ip node = elim (Bool-cases (is_active ip node.active_clients)) [
    | inl y ↦ rw y (record { active_kept = refl; asked = inl refl })
    | inr n ↦ rw n (record { active_kept = refl; asked = inr (n, refl) })
  ]

  pub put-IsAmong :
      (who : List Bytes) (net : Net) (w : Bytes) (node : Node) (arriving : List (Bytes × Bytes))
      (flight : List Letter)
      → All (λ x. IsIn w who × IsIn x who) node.connecting
      → All (λ (e : Bytes × Bytes). IsIn e.0 who × IsIn e.1 who) arriving
      → All (λ (l : Letter). IsIn l.from who × IsIn l.to who) flight
      → IsAmong who net
      → IsAmong who (record { nodes = put w node net.nodes; arriving = arriving; flight = flight })
  put-IsAmong who net w node arriving flight here came ls among = record {
    dialers = λ y.
        put-elim (λ j n. All (λ x. IsIn j who × IsIn x who) n.connecting) w node net.nodes y here
          (λ _. among.dialers y);
    arrivals = came;
    letters = ls;
  }
