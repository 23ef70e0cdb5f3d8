-- ===== src/Server/Round/Alone.antt =====
-- A round that no other thread disturbs is `sweep`.
use dave_coin.Base.{
  ◌≡◌, refl, sym, ap, subst, ◌∙◌, [], ◌∷◌, ◌++◌, Bool, Option, none, some, append_assoc,
  Option-cases, inl, inr,
}
use dave_coin.Bytes.{Bytes}
use dave_coin.Dict.{Dict, lookup, erase}
use dave_coin.Dict.Cursor.{first_key, next_key, lookup-middle, next_key-middle}
use dave_coin.Dict.Order.{IsSorted, erase-middle}
use dave_coin.Node.{Node}
use dave_coin.Server.{drop_client, sweep_loop, sweep}
use dave_coin.Server.Round.{visit, clear_heartbeats, Round, begins, meanwhile, visits}
use dave_coin.Server.Round.Fair.{Round-IsSorted}
use dave_coin.Server.Sweep.{connection, beat, sweep_loop-beat, sweep_loop-skips}
use dave_coin.Server.Sweep.Kills.{clients-drop_client}
use dave_coin.Tcp.{Tcp}

module _ ⦃t : Tcp⦄ where
  -- Nothing happens between the visits.
  abbrev pub IsAlone : {a b : Node} {i : Option Bytes} → Round a i b → Type 0
  IsAlone begins = Unit
  IsAlone (meanwhile r e) = ⊥
  IsAlone (visits ip r) = IsAlone r

  -- The iterator is at the entries `left`, behind those of `done`, and the loop over them is what is left of
  -- the round that began at `a`.
  pub record IsHalfway (a : Node) (i : Option Bytes) (b : Node) (done left : Dict t.Client)
      : Type 0 where
    pub at_left : i ≡ first_key left
    pub clients : b.server.connected_clients ≡ done ++ left
    pub rest : sweep_loop left b ≡ sweep_loop a.server.connected_clients a

  visit-heard :
      (j : Bytes) (client : t.Client) (node : Node) (x : Bool)
      → connection j node ≡ some client
      → beat j node ≡ some x
      → visit j node ≡ node
  unfolding visit
  visit-heard j client node x e h = rw (e, h, visit) refl

  visit-silent :
      (j : Bytes) (client : t.Client) (node : Node)
      → connection j node ≡ some client
      → beat j node ≡ none
      → visit j node ≡ drop_client j client node
  unfolding visit
  visit-silent j client node e h = rw (e, h, visit) refl

  -- A visit takes one entry from `left`.
  pub visit-IsHalfway :
      (a b : Node) (j : Bytes) (client : t.Client) (done left : Dict t.Client)
      → IsSorted b.server.connected_clients
      → IsHalfway a (some j) b done ((j, client) ∷ left)
      → (done' : Dict t.Client) × IsHalfway a
          (next_key j b.server.connected_clients)
          (visit j b)
          done'
          left
  visit-IsHalfway a b j client done left sorted s =
      let order : IsSorted (done ++ (j, client) ∷ left) = subst IsSorted s.clients sorted in
      let here : connection j b ≡ some client =
        ap (lookup j) s.clients ∙ lookup-middle j client done left order in
      let next : next_key j b.server.connected_clients ≡ first_key left =
        ap (next_key j) s.clients ∙ next_key-middle j client done left order in
      elim (Option-cases (beat j b)) [
        | inl h ↦
            let same = visit-silent j client b here h in
            (
              done,
              record {
                at_left = next;
                clients =
                    ap (λ (n : Node). n.server.connected_clients) same
                    ∙ clients-drop_client j client b
                    ∙ ap (erase j) s.clients
                    ∙ erase-middle j client done left order;
                rest =
                    ap (sweep_loop left) same ∙ sym (sweep_loop-skips j client left b h) ∙ s.rest;
              },
            )
        | inr (x, h) ↦
            let same = visit-heard j client b x here h in
            (
              done ++ (j, client) ∷ [],
              record {
                at_left = next;
                clients =
                    ap (λ (n : Node). n.server.connected_clients) same
                    ∙ s.clients
                    ∙ sym (append_assoc done ((j, client) ∷ []) left);
                rest =
                    ap (sweep_loop left) same ∙ sym (sweep_loop-beat j client left b x h) ∙ s.rest;
              },
            )
      ]

  first_key-some :
      (j : Bytes) (m : Dict t.Client)
      → some j ≡ first_key m
      → (client : t.Client) × (left : Dict t.Client) × (m ≡ (j, client) ∷ left)
  first_key-some j [] e = cc
  first_key-some j ((k, client) ∷ left) e = (client, left, cc)

  Round-IsHalfway :
      {a b : Node} {i : Option Bytes} (r : Round a i b)
      → IsAlone r
      → IsSorted a.server.connected_clients
      → (done left : Dict t.Client) × IsHalfway a i b done left
  Round-IsHalfway {a} begins alone sorted =
      ([], a.server.connected_clients, record { at_left = refl; clients = refl; rest = refl })
  Round-IsHalfway (meanwhile r e) alone sorted = absurd alone
  Round-IsHalfway {a} (visits {b} j r) alone sorted =
      let (done, m, s) = Round-IsHalfway r alone sorted in
      let (client, left, e) = first_key-some j m s.at_left in
      let (done', s') =
        visit-IsHalfway a b j client done left (Round-IsSorted sorted r)
          (subst (IsHalfway a (some j) b done) e s) in
      (done', left, s')

  first_key-none : (m : Dict t.Client) → none ≡ first_key m → m ≡ []
  first_key-none [] e = refl
  first_key-none ((k, client) ∷ m) e = cc

  -- A round of visits that nothing disturbs leaves the node as `sweep` does.
  pub Round-sweep :
      {a b : Node} (r : Round a none b)
      → IsAlone r
      → IsSorted a.server.connected_clients
      → clear_heartbeats b ≡ sweep a
  unfolding clear_heartbeats sweep sweep_loop
  Round-sweep {a} {b} r alone sorted =
      let (done, left, s) = Round-IsHalfway r alone sorted in
      let over : b ≡ sweep_loop a.server.connected_clients a =
        sym (ap (λ m. sweep_loop m b) (first_key-none left s.at_left)) ∙ s.rest in
      ap clear_heartbeats over
