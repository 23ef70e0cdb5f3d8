-- ===== src/Server/Start.antt =====
-- `NodeServer::Init`: the start of the TCP server, and the thread that mines a block for testing.
pub mod MineThread
use dave_coin.Base.{ℕ, List, [], ◌∷◌, Bool, Option, none, some, if◌then◌else◌}
use dave_coin.Bytes.{Bytes, Outcome, ok, throws, fault, no_server}
use dave_coin.Block.{Block, Garbage, new_block}
use dave_coin.Crypto.{Crypto, Dsa}
use dave_coin.Keys.{generate_keys}
use dave_coin.Miner.{Scan, mine_block}
use dave_coin.Node.{NServer}
use dave_coin.Packet.{EncodedPacket}
use dave_coin.Server.{send_message_to_all_clients}
use dave_coin.Tcp.{Tcp}

abbrev pub port : ℕ
port = 8080

module _ ⦃t : Tcp⦄ where
  -- The threads that `Init` starts and joins.
  pub data Thread : Type 0 where
    heartbeat_loop client_loop mine_loop : Thread

  -- `Init` up to its threads. `started` is what `start(PORT)` answers, with the TCP server that it leaves;
  -- the observer listens to every address.
  unfoldable pub init : Bool × t.Server → NServer → Outcome (NServer × List Thread)
  init (success, tserver) s =
      if success
      then ok (
        record s { tserver = t.subscribe tserver [] },
        heartbeat_loop ∷ client_loop ∷ mine_loop ∷ [],
      )
      else throws no_server

  -- The calls of `SendMessageToAllClients` that the miner makes.
  unfoldable pub send_all : List (EncodedPacket t.Client) → NServer → NServer
  unfolding send_message_to_all_clients
  send_all [] s = s
  send_all (p ∷ ps) s = send_all ps (send_message_to_all_clients p s)

module _ ⦃c : Crypto⦄ where
  -- The block of `start_mine_loop`, from a constructor that runs at clock `now`.
  unfoldable pub random_block : Garbage → ℕ → c.PublicKey → Block c.PublicKey
  unfolding new_block
  random_block g now public_key = record (new_block g now) {
    hash = 48 ∷ [];
    prev_hash = 48 ∷ [];
    coinbase = record { coins = 100; target = public_key };
    bit_thresh = 1;
  }

module _ ⦃t : Tcp⦄ ⦃c : Crypto⦄ where
  -- What the thread does when `MineBlock` has ended.
  abbrev mined : Option (Scan t.Client) → NServer → Outcome (Option NServer)
  mined none s = ok none
  mined (some scan) s = ok (some (send_all scan.sent s))

  abbrev with_keys :
      (c.PublicKey → Outcome (Option NServer))
      → Outcome (c.PublicKey × c.PrivateKey)
      → Outcome (Option NServer)
  with_keys f (ok (public_key, private_key)) = f public_key
  with_keys f (throws e) = throws e
  with_keys f fault = fault

  -- `start_mine_loop`, with `fuel` rounds of the outer loop of `MineBlock`; `none` means that it ran out.
  unfoldable pub mine_thread :
      Dsa → ℕ → ℕ → ℕ → Garbage → ℕ → ℕ → (ℕ → ℕ) → NServer → Outcome (Option NServer)
  unfolding random_block send_all
  mine_thread d rng rng1 rng2 g now fuel clock s =
      with_keys (λ public_key. mined (mine_block fuel clock (random_block g now public_key)) s)
        (generate_keys d rng rng1 rng2)
