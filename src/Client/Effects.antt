-- ===== src/Client/Effects.antt =====
-- What a message from a server can do to a node.
use dave_coin.Base.{ℕ, ◌≡◌, ◌≢◌, ◌↔◌, refl, sym, subst, ◌∙◌, arith, ◌==◌, inl, inr, Bool-cases}
use dave_coin.Bytes.{Bytes, Outcome, ok, throws, fault}
use dave_coin.Block.{Block, Garbage}
use dave_coin.Client.{receive_message, dispatch, show_text, show_block}
use dave_coin.Crypto.{Crypto}
use dave_coin.Node.{Node, Notice, print, client_text, client_block, client_invalid}
use dave_coin.Packet.{
  DecodedPacket, read_header, simple_string, mined_block, decode_simple_string, decode_mined_block,
}
use dave_coin.Packet.Header.{read_header_total}
use dave_coin.Tcp.{Tcp}

module _ ⦃t : Tcp⦄ where
  -- One line is printed, and it says that there is a block if the message's type is `k`.
  abbrev pub Prints : ℕ → Node → Node → Type 0
  Prints k node node' =
      (n : Notice) × (node' ≡ print n node) × ((n ≡ client_block) ↔ (k ≡ mined_block))

  abbrev OnReturn : ℕ → Node → Outcome Node → Type 0
  OnReturn k node (ok node') = Prints k node node'
  OnReturn k node (throws e) = Unit
  OnReturn k node fault = Unit

  show_text-OnReturn :
      (k : ℕ) (r : Outcome (DecodedPacket Bytes)) (node : Node)
      → k ≢ mined_block
      → OnReturn k node (show_text r node)
  unfolding show_text
  show_text-OnReturn k (ok p) node n = (client_text p.payload, refl, (λ e. cc, λ e. absurd (n e)))
  show_text-OnReturn k (throws e) node n = tt
  show_text-OnReturn k fault node n = tt

module _ ⦃t : Tcp⦄ ⦃c : Crypto⦄ where
  show_block-OnReturn :
      (k : ℕ) (r : Outcome (DecodedPacket (Block c.PublicKey))) (node : Node)
      → k ≡ mined_block
      → OnReturn k node (show_block r node)
  unfolding show_block
  show_block-OnReturn k (ok p) node e = (client_block, refl, (λ _. e, λ _. refl))
  show_block-OnReturn k (throws x) node e = tt
  show_block-OnReturn k fault node e = tt

  dispatch-OnReturn :
      (g : Garbage) (now : ℕ) (raw : Bytes) (k : ℕ) (node : Node)
      → OnReturn k node (dispatch g now raw k node)
  unfolding dispatch
  dispatch-OnReturn g now raw k node = elim (Bool-cases (k == simple_string)) [
    | inl y ↦ rw y (show_text-OnReturn k (decode_simple_string raw) node (ground (arith, y)))
    | inr n ↦ elim (Bool-cases (k == mined_block)) [
      | inl y ↦
          rw (n, y) (show_block-OnReturn k (decode_mined_block g now raw) node (ground (arith, y)))
      | inr n' ↦
          let other : k ≢ mined_block = ground (arith, n') in
          rw (n, n') (client_invalid, refl, (λ e. cc, λ e. absurd (other e)))
    ]
  ]

  -- Whatever bytes a server sends, if the client's handler returns then it has printed one line and changed
  -- nothing else, a received block included; the line says that there is a block exactly if the header says so.
  pub receive_message-Prints :
      (g : Garbage) (now : ℕ) (raw : Bytes) (node node' : Node)
      → receive_message g now raw node ≡ ok node'
      → (k : ℕ) × (read_header raw ≡ ok k) × Prints k node node'
  unfolding receive_message
  receive_message-Prints g now raw node node' h =
      let (k, e, _) = read_header_total raw in
      let d : receive_message g now raw node ≡ dispatch g now raw k node = rw e refl in
      (k, e, subst (OnReturn k node) (sym d ∙ h) (dispatch-OnReturn g now raw k node))
