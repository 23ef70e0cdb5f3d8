-- ===== src/Server/Faults.antt =====
-- How the server's handler ends on bytes that nothing is known of.
use dave_coin.Base.{
  ℕ, ◌+◌, ◌<◌, ◌≡◌, ◌≢◌, ◌↔◌, ◌⊎◌, refl, sym, ap, subst, ◌∙◌, false, arith, ltb, ◌==◌, length, inl,
  inr, Bool-cases,
}
use dave_coin.Bytes.{Bytes, Outcome, ok, throws, fault}
use dave_coin.Node.{Node}
use dave_coin.Packet.{
  read_header, client_heartbeat, client_poke, simple_string, broadcast_tx, decode_simple_string,
}
use dave_coin.Packet.Header.{read_header_total}
use dave_coin.Packet.Sizes.{text_size, read_at-sized_text}
use dave_coin.Server.{receive_message, dispatch, show_text}
use dave_coin.Tcp.{Tcp}

-- The text that the packet declares ends behind the packet and its terminating null.
abbrev pub Overruns : Bytes → Type 0
Overruns packet = length packet < 9 + text_size packet

-- What is true of an outcome that is a result.
abbrev pub Returns {ℓ} : {A : Type ℓ} → Outcome A → Type ℓ
Returns {A = A} r = (a : A) × (r ≡ ok a)

abbrev IsOk {ℓ} : {A : Type ℓ} → Outcome A → Type 0
IsOk (ok a) = Unit
IsOk (throws e) = ⊥
IsOk fault = ⊥

Returns-IsOk {ℓ} : {A : Type ℓ} (r : Outcome A) → IsOk r → Returns r
Returns-IsOk (ok a) h = (a, refl)
Returns-IsOk (throws e) h = absurd h
Returns-IsOk fault h = absurd h

fault-IsOk {ℓ} : {A : Type ℓ} {r : Outcome A} → r ≡ fault → IsOk r → ⊥
fault-IsOk e h = subst IsOk e h

module _ ⦃t : Tcp⦄ where
  show_text-decode :
      (packet : Bytes) (node : Node)
      → (Overruns packet × (show_text (decode_simple_string packet) node ≡ fault))
        ⊎ ((¬ Overruns packet) × IsOk (show_text (decode_simple_string packet) node))
  unfolding show_text decode_simple_string
  show_text-decode packet node = elim (Bool-cases (ltb (length packet) (9 + text_size packet))) [
    | inl over ↦ inl (ground (arith, over), rw (read_at-sized_text packet, over) refl)
    | inr fits ↦ inr (ground (arith, fits), rw (read_at-sized_text packet, fits) tt)
  ]

  dispatch-text :
      (client : t.Client) (raw : Bytes) (node : Node)
      → dispatch client raw simple_string node ≡ show_text (decode_simple_string raw) node
  unfolding dispatch
  dispatch-text client raw node = refl

  dispatch-other :
      (client : t.Client) (raw : Bytes) (k : ℕ) (node : Node)
      → k ≢ simple_string
      → IsOk (dispatch client raw k node)
  unfolding dispatch
  dispatch-other client raw k node n = elim (Bool-cases (k == client_heartbeat)) [
    | inl y ↦ rw y tt
    | inr n1 ↦ elim (Bool-cases (k == client_poke)) [
      | inl y ↦ rw (n1, y) tt
      | inr n2 ↦
          let n3 : (k == simple_string) ≡ false = ground (arith, n) in
          elim (Bool-cases (k == broadcast_tx)) [
            | inl y ↦ rw (n1, n2, n3, y) tt
            | inr n4 ↦ rw (n1, n2, n3, n4) tt
          ]
    ]
  ]

  -- The handler's two ends.
  receive_message_cases :
      (client : t.Client) (raw : Bytes) (node : Node)
      → ((read_header raw ≡ ok simple_string)
          × Overruns raw
          × (receive_message client raw node ≡ fault))
        ⊎ ((¬ ((read_header raw ≡ ok simple_string) × Overruns raw))
            × IsOk (receive_message client raw node))
  unfolding receive_message
  receive_message_cases client raw node =
      let (k, header, _) = read_header_total raw in
      let d : receive_message client raw node ≡ dispatch client raw k node = rw header refl in
      elim (Bool-cases (k == simple_string)) [
        | inl y ↦
            let text : k ≡ simple_string = ground (arith, y) in
            let e = d ∙ ap (λ j. dispatch client raw j node) text ∙ dispatch-text client raw node in
            elim (show_text-decode raw node) [
              | inl (over, ends) ↦ inl (header ∙ ap ok text, over, e ∙ ends)
              | inr (fits, ends) ↦ inr (λ (_, over). fits over, subst IsOk (sym e) ends)
            ]
        | inr n ↦
            let other : k ≢ simple_string = ground (arith, n) in
            inr (
              λ (text, _). other (cc (sym header ∙ text)),
              subst IsOk (sym d) (dispatch-other client raw k node other),
            )
      ]

  -- On any bytes, the server's handler reads outside its buffer exactly if they are a simple string whose
  -- declared size reaches behind their end, and it returns, having thrown nothing, exactly if they are not.
  pub receive_message_ends :
      (client : t.Client) (raw : Bytes) (node : Node)
      → ((receive_message client raw node ≡ fault)
          ↔ ((read_header raw ≡ ok simple_string) × Overruns raw))
        × (Returns (receive_message client raw node)
            ↔ (¬ ((read_header raw ≡ ok simple_string) × Overruns raw)))
  receive_message_ends client raw node = elim (receive_message_cases client raw node) [
    | inl (text, over, ends) ↦ (
      (λ _. (text, over), λ _. ends),
      (λ (node', e) _. subst IsOk (sym (sym ends ∙ e)) tt, λ n. absurd (n (text, over))),
    )
    | inr (n, ends) ↦
        ((λ e. absurd (fault-IsOk e ends), λ h. absurd (n h)), (λ _. n, λ _. Returns-IsOk _ ends))
  ]
