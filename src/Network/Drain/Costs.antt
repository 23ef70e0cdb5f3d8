-- ===== src/Network/Drain/Costs.antt =====
-- What each step of work takes away.
use dave_coin.Base.{
  sym, subst, ℕ, ◌+◌, ◌<◌, ◌≡◌, ap, List, [], ◌∷◌, true, false, arith, length, drop, drop-append,
  inl, inr, Bool-cases,
}
use dave_coin.Bytes.{Bytes}
use dave_coin.Client.{is_active, finished, initialize_client_connection}
use dave_coin.Client.Dedup.{pending}
use dave_coin.Dict.{same_bytes, same_bytes_iff}
use dave_coin.Network.{Net, Letter, put}
use dave_coin.Network.Drain.{
  sum_of, IsIn, Distinct, Acts, dial_cost, letter_cost, acts, dials, work,
}
use dave_coin.Network.Drain.Sums.{Grows, work_at-le, sum_of-put}
use dave_coin.Network.Puts.{put-elim}
use dave_coin.Network.Establish.{connected_to, sent-connected}
use dave_coin.Node.{Node, print, has_client_with_ip}
use dave_coin.Packet.{EncodedPacket, serialize_client_poke}
use dave_coin.Tcp.{Tcp}

-- A poke costs more than the thread that it asks for.
pub poke_cost :
    (act : Acts) (l : Letter)
    → act l.to l.from ≡ false
    → dial_cost act l.to l.from < letter_cost act l
poke_cost act l h = ground (arith, h)

pub some_cost : (act : Acts) (l : Letter) → 0 < letter_cost act l
some_cost act l = ground arith

-- A thread costs more than the connection that arrives and a poke.
pub thread_cost :
    (act : Acts) (l : Letter)
    → act l.from l.to ≡ true
    → 1 + letter_cost act l < dial_cost act l.from l.to
thread_cost act l h = ground (arith, h)

pub sum_of-finished :
    (f : Bytes → ℕ) (ip : Bytes) (js : List Bytes)
    → 0 < pending ip js
    → sum_of f (finished ip js) + f ip ≡ sum_of f js
unfolding finished
sum_of-finished f ip [] h = absurd (omega arith)
sum_of-finished f ip (j ∷ js) h = elim (Bool-cases (same_bytes j ip)) [
  | inl y ↦ rw y (omega (arith, ap f ((same_bytes_iff j ip).0 y)))
  | inr n ↦
      let more : 0 < pending ip js = omega (arith, rw n at h) in
      rw n (omega (arith, sum_of-finished f ip js more))
]

module _ ⦃t : Tcp⦄ where
  pub put-Grows :
      (w : Bytes) (node : Node) (nodes : Bytes → Node)
      → ((y : Bytes)
          → is_active y (nodes w).active_clients ≡ true
          → is_active y node.active_clients ≡ true)
      → Grows (acts nodes) (acts (put w node nodes))
  put-Grows w node nodes h x y active =
      put-elim
        (λ j n. is_active y (nodes j).active_clients ≡ true → is_active y n.active_clients ≡ true) w
        node nodes x (h y) (λ _ z. z) active

  -- A step that changes one node, and takes away more than it adds.
  pub put-work :
      (who : List Bytes) (net : Net) (w : Bytes) (node : Node) (arriving : List (Bytes × Bytes))
      (flight : List Letter)
      → let act = acts (put w node net.nodes) in
        Distinct who
        → IsIn w who
        → ((y : Bytes)
            → is_active y (net.nodes w).active_clients ≡ true
            → is_active y node.active_clients ≡ true)
        → sum_of (letter_cost act) flight + length arriving + dials act w node
          < sum_of (letter_cost act) net.flight + length net.arriving + dials act w (net.nodes w)
        → work who (record { nodes = put w node net.nodes; arriving = arriving; flight = flight })
          < work who net
  put-work who net w node arriving flight d here grows less =
      let act = acts (put w node net.nodes) in
      omega (
        arith,
        less,
        work_at-le (acts net.nodes) act who net (put-Grows w node net.nodes grows),
        sum_of-put (dials act) w node net.nodes who d here,
      )

  sent-listening :
      (a b : Bytes) (node : Node)
      → has_client_with_ip b node.server.connected_clients ≡ true
      → drop (length node.sent) (connected_to a b node).sent ≡ []
  unfolding initialize_client_connection print
  sent-listening a b node h = rw h (drop-append node.sent [])

  -- What a thread that has connected sends is nothing, or a poke.
  pub sent-elim :
      (P : List (Bytes × EncodedPacket t.Client) → Type 0) (a b : Bytes) (node : Node)
      → P []
      → P ((b, serialize_client_poke a) ∷ [])
      → P (drop (length node.sent) (connected_to a b node).sent)
  sent-elim P a b node nothing poke =
      elim (Bool-cases (has_client_with_ip b node.server.connected_clients)) [
        | inl y ↦ subst P (sym (sent-listening a b node y)) nothing
        | inr n ↦ subst P (sym (sent-connected a b node n)) poke
      ]
