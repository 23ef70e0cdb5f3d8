-- ===== src/Client/Connect.antt =====
-- The test for a second connection to a server, before and after the first is established.
use dave_coin.Base.{
  append_assoc, ℕ, ◌+◌, ◌≡◌, refl, ap, ◌∙◌, List, [], ◌∷◌, ◌++◌, Bool, true, false, arith,
  if◌then◌else◌,
}
use dave_coin.Bytes.{Bytes}
use dave_coin.Dict.{same_bytes, same_bytes_iff}
use dave_coin.Node.{Node, NClient, print}
use dave_coin.Client.{is_active, connect_to_server, initialize_client_connection}
use dave_coin.Tcp.{Tcp}

pub is_active-append :
    (ip : Bytes) (cs : List NClient) (alive : Bool)
    → is_active ip (cs ++ record { server_ip = ip; alive = alive } ∷ []) ≡ true
unfolding is_active
is_active-append ip [] alive = ground (arith, same_bytes_iff ip ip)
is_active-append ip (c ∷ cs) alive = ground (arith, is_active-append ip cs alive)

-- The number of active connections to an address.
abbrev pub connections : Bytes → List NClient → ℕ
connections ip [] = 0
connections ip (c ∷ cs) = (if same_bytes c.server_ip ip then 1 else 0) + connections ip cs

pub connections-append_other :
    (ip j : Bytes) (cs : List NClient) (alive : Bool)
    → connections ip (cs ++ record { server_ip = j; alive = alive } ∷ [])
      ≡ connections ip cs + (if same_bytes j ip then 1 else 0)
connections-append_other ip j [] alive = omega arith
connections-append_other ip j (c ∷ cs) alive = omega (arith, connections-append_other ip j cs alive)

connections-append :
    (ip : Bytes) (cs : List NClient) (alive : Bool)
    → connections ip (cs ++ record { server_ip = ip; alive = alive } ∷ []) ≡ connections ip cs + 1
connections-append ip [] alive = ground (arith, same_bytes_iff ip ip)
connections-append ip (c ∷ cs) alive = ground (arith, connections-append ip cs alive)

module _ ⦃t : Tcp⦄ where
  -- Once a connection to an address is established, a later request for the same address changes
  -- nothing.
  pub connect_to_server-connected :
      (my_ip ip : Bytes) (node : Node)
      → connect_to_server ip (initialize_client_connection true my_ip ip node)
        ≡ initialize_client_connection true my_ip ip node
  unfolding connect_to_server initialize_client_connection print
  connect_to_server-connected my_ip ip node = rw (is_active-append ip node.active_clients true) refl

  pub connect_to_server-inactive :
      (ip : Bytes) (node : Node)
      → is_active ip node.active_clients ≡ false
      → connect_to_server ip node ≡ record node { connecting = node.connecting ++ ip ∷ [] }
  unfolding connect_to_server
  connect_to_server-inactive ip node h = rw h refl

  requested_twice :
      (ip : Bytes) (node : Node)
      → is_active ip node.active_clients ≡ false
      → connect_to_server ip (connect_to_server ip node)
        ≡ record node { connecting = node.connecting ++ ip ∷ ip ∷ [] }
  requested_twice ip node h =
      ap (connect_to_server ip) (connect_to_server-inactive ip node h)
      ∙ connect_to_server-inactive ip (record node { connecting = node.connecting ++ ip ∷ [] }) h
      ∙ ap (λ l. record node { connecting = l }) (append_assoc node.connecting (ip ∷ []) (ip ∷ []))

  initialized_twice :
      (my_ip ip : Bytes) (node : Node)
      → connections ip
          (initialize_client_connection true my_ip ip
            (initialize_client_connection true my_ip ip node)).active_clients
        ≡ connections ip node.active_clients + 2
  unfolding initialize_client_connection print
  initialized_twice my_ip ip node =
      connections-append ip (node.active_clients ++ record { server_ip = ip; alive = true } ∷ [])
        true
      ∙ ap (λ n. n + 1) (connections-append ip node.active_clients true)
      ∙ omega arith

  -- The test does not see the threads that still connect: after two requests for an address that is not
  -- active there are two threads for it, and two more active connections to it when both succeed.
  pub connections-requested_twice :
      (my_ip ip : Bytes) (node : Node)
      → is_active ip node.active_clients ≡ false
      → ((connect_to_server ip (connect_to_server ip node)).connecting
          ≡ node.connecting ++ ip ∷ ip ∷ [])
        × (connections ip
              (initialize_client_connection true my_ip ip (
                initialize_client_connection true my_ip ip
                  (connect_to_server ip (connect_to_server ip node)))).active_clients
            ≡ connections ip node.active_clients + 2)
  connections-requested_twice my_ip ip node h = (
    ap (λ (n : Node). n.connecting) (requested_twice ip node h),
    initialized_twice my_ip ip (connect_to_server ip (connect_to_server ip node))
        ∙ ap (λ (n : Node). connections ip n.active_clients + 2) (requested_twice ip node h),
  )
