-- ===== src/Network/Puts.antt =====
-- Steps that change one node, and close none of its connections.
use dave_coin.Base.{
  Any, ◌<◌, ◌≡◌, sym, ap, subst, ◌∙◌, ◌⊎◌, List, [], ◌∷◌, ◌++◌, true, false, arith, inl, inr,
  Bool-cases,
}
use dave_coin.Bytes.{Bytes}
use dave_coin.Client.{is_active}
use dave_coin.Client.Dedup.{pending}
use dave_coin.Dict.{same_bytes, same_bytes_iff}
use dave_coin.Node.{Node}
use dave_coin.Network.{Net, Letter, put, IsActive, IsDialing, IsClient, IsArriving, IsPoked}
use dave_coin.Network.Calm.{KeepsClient}
use dave_coin.Network.Change.{Change}
use dave_coin.Server.Steps.{IsConnected}
use dave_coin.Tcp.{Tcp}

-- An element of a list is the one in the middle, or another.
pub Any-middle {ℓ} :
    {A : Type ℓ} (P : A → Type 0) (xs ys : List A) (x : A)
    → Any P (xs ++ x ∷ ys)
    → P x ⊎ Any P (xs ++ ys)
Any-middle P [] ys x h = h
Any-middle P (z ∷ xs) ys x (inl h) = inr (inl h)
Any-middle P (z ∷ xs) ys x (inr h) = elim (Any-middle P xs ys x h) [
  | inl y ↦ inl y
  | inr y ↦ inr (inr y)
]

pub Any-without {ℓ} :
    {A : Type ℓ} (P : A → Type 0) (xs ys : List A) (x : A) → Any P (xs ++ ys) → Any P (xs ++ x ∷ ys)
Any-without P [] ys x h = inr h
Any-without P (z ∷ xs) ys x (inl h) = inl h
Any-without P (z ∷ xs) ys x (inr h) = inr (Any-without P xs ys x h)

pub Any-append {ℓ} : {A : Type ℓ} (P : A → Type 0) (xs ys : List A) → Any P ys → Any P (xs ++ ys)
Any-append P [] ys h = h
Any-append P (x ∷ xs) ys h = inr (Any-append P xs ys h)

module _ ⦃t : Tcp⦄ where
  -- What is true of the node put at `w`, and of all others, is true of each.
  pub put-elim :
      (P : Bytes → Node → Type 0) (w : Bytes) (node : Node) (nodes : Bytes → Node) (j : Bytes)
      → P w node
      → ((same_bytes w j ≡ false) → P j (nodes j))
      → P j (put w node nodes j)
  put-elim P w node nodes j h k = elim (Bool-cases (same_bytes w j)) [
    | inl y ↦ rw y (subst (λ i. P i node) ((same_bytes_iff w j).0 y) h)
    | inr n ↦ rw n (k n)
  ]

  -- What is true of a node at one of the addresses was true of the node put at `w`, or of that one.
  pub put-cases :
      (P : Node → Type 0) (w : Bytes) (node : Node) (nodes : Bytes → Node) (j : Bytes)
      → P (put w node nodes j)
      → ((w ≡ j) × P node) ⊎ P (nodes j)
  put-cases P w node nodes j h = elim (Bool-cases (same_bytes w j)) [
    | inl y ↦ inl ((same_bytes_iff w j).0 y, rw y at h)
    | inr n ↦ inr (rw n at h)
  ]

  pub put-Change :
      (net : Net) (w : Bytes) (node : Node) (arriving : List (Bytes × Bytes)) (flight : List Letter)
      → let net' : Net = record {
        nodes = put w node net.nodes;
        arriving = arriving;
        flight = flight;
      } in
        KeepsClient (net.nodes w) node
        → ((j : Bytes) → IsConnected j (net.nodes w) → IsConnected j node)
        → ((j : Bytes) → IsConnected j node → IsClient j w net ⊎ IsArriving j w net)
        → ((a b : Bytes) → IsArriving a b net → IsArriving a b net' ⊎ IsClient a b net')
        → ((a b : Bytes) → IsArriving a b net' → IsArriving a b net)
        → ((a b : Bytes)
            → IsPoked a b net
            → IsPoked a b net' ⊎ IsDialing b a net' ⊎ IsActive b a net')
        → Change net net'
  put-Change net w node arriving flight keeps grows origin arrives arrived pokes = record {
    active = λ a b h.
        put-elim
          (λ j n.
            is_active b (net.nodes j).active_clients ≡ true → is_active b n.active_clients ≡ true)
          w node net.nodes a (λ x. ap (is_active b) keeps.same_active ∙ x) (λ _ x. x) h;
    client = λ a b h.
        put-elim (λ j n. IsConnected a (net.nodes j) → IsConnected a n) w node net.nodes b (grows a)
          (λ _ x. x) h;
    arriving = arrives;
    poked = pokes;
    dialing = λ a b h. inl (
        put-elim (λ j n. 0 < pending b (net.nodes j).connecting → 0 < pending b n.connecting) w node
          net.nodes a (λ x. omega (arith, x, keeps.more_pending b)) (λ _ x. x) h);
    new_active = λ a b h.
        inl (elim (put-cases (λ n. is_active b n.active_clients ≡ true) w node net.nodes a h) [
          | inl (same, x) ↦
              subst (λ j. is_active b (net.nodes j).active_clients ≡ true) same
                (sym (ap (is_active b) keeps.same_active) ∙ x)
          | inr x ↦ x
        ]);
    new_client = λ a b h. elim (put-cases (IsConnected a) w node net.nodes b h) [
      | inl (same, x) ↦ subst (λ j. IsClient a j net ⊎ IsArriving a j net) same (origin a x)
      | inr x ↦ inl x
    ];
    new_arriving = λ a b h. inl (arrived a b h);
  }
