-- ===== src/MyIp.antt =====
-- `GetMyIP` of jumbopacket.cpp. What the operating system answers is an argument, and its state is the
-- list of open descriptors.
pub mod Descriptors
use dave_coin.Base.{ℕ, List, [], ◌∷◌, Bool, true, false, Option, none, some, ◌==◌, if◌then◌else◌}
use dave_coin.Bytes.{Bytes, Outcome, ok, throws, fault, no_socket, not_connected, no_name}

-- What `socket`, `connect`, `getsockname` and `inet_ntop` answer; `none` stands for -1 and for the null
-- pointer.
pub record Answers : Type 0 where
  pub socket : Option ℕ
  pub connects : Bool
  pub names : Bool
  pub text : Option Bytes

-- `close(fd)`.
unfoldable pub close : ℕ → List ℕ → List ℕ
close fd [] = []
close fd (x ∷ xs) = let rest = x ∷ close fd xs in if x == fd then xs else rest

-- The end of the function, with the socket closed. Where `inet_ntop` fails, it goes on with a buffer that
-- nothing was written to.
unfoldable pub result_of : Option Bytes → Outcome Bytes
result_of none = fault
result_of (some text) = ok text

-- The calls on a socket that is open.
unfoldable pub with_socket : Answers → ℕ → List ℕ → Outcome Bytes × List ℕ
unfolding close result_of
with_socket os sock open_fds =
    if os.connects
    then (if os.names
        then (result_of os.text, close sock open_fds)
        else (throws no_name, close sock open_fds))
    else (throws not_connected, close sock open_fds)

unfoldable pub get_my_ip : Answers → List ℕ → Outcome Bytes × List ℕ
unfolding with_socket
get_my_ip os open_fds = elim os.socket [
  | none ↦ (throws no_socket, open_fds)
  | some sock ↦ with_socket os sock (sock ∷ open_fds)
]
