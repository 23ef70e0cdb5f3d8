-- ===== src/MyIp/Descriptors.antt =====
-- `GetMyIP` leaks no descriptor, and when it answers.
use dave_coin.Base.{
  sym, ◌≢◌, ℕ, ◌≡◌, refl, ◌∙◌, List, ◌∷◌, true, Option, none, some, arith, ◌↔◌, Bool-cases,
  Option-cases, inl, inr,
}
use dave_coin.Bytes.{Bytes, ok}
use dave_coin.MyIp.{Answers, close, result_of, with_socket, get_my_ip}

close_first : (fd : ℕ) (open_fds : List ℕ) → close fd (fd ∷ open_fds) ≡ open_fds
unfolding close
close_first fd open_fds = ground arith

with_socket-close :
    (os : Answers) (sock : ℕ) (open_fds : List ℕ)
    → (with_socket os sock (sock ∷ open_fds)).1 ≡ open_fds
unfolding with_socket
with_socket-close os sock open_fds = elim (Bool-cases os.connects) [
  | inl y ↦ elim (Bool-cases os.names) [
    | inl y1 ↦ rw (y, y1) (close_first sock open_fds)
    | inr n1 ↦ rw (y, n1) (close_first sock open_fds)
  ]
  | inr n ↦ rw n (close_first sock open_fds)
]

result_of_iff : (r : Option Bytes) (text : Bytes) → (result_of r ≡ ok text) ↔ (r ≡ some text)
unfolding result_of
result_of_iff none text = (λ e. cc, λ e. cc)
result_of_iff (some s) text = (λ e. cc, λ e. cc)

with_socket_iff :
    (os : Answers) (sock : ℕ) (open_fds : List ℕ) (text : Bytes)
    → ((with_socket os sock open_fds).0 ≡ ok text)
      ↔ ((os.connects ≡ true) × (os.names ≡ true) × (os.text ≡ some text))
unfolding with_socket
with_socket_iff os sock open_fds text = elim (Bool-cases os.connects) [
  | inl y ↦ elim (Bool-cases os.names) [
    | inl y1 ↦
        rw (y, y1)
          (
            λ e. (refl, refl, (result_of_iff os.text text).0 e),
            λ (_, _, e). (result_of_iff os.text text).1 e,
          )
    | inr n1 ↦ rw (y, n1) (λ e. cc, λ (_, e, _). cc)
  ]
  | inr n ↦ rw n (λ e. cc, λ (e, _, _). cc)
]

-- However the system's calls end, `GetMyIP` leaves the descriptors open that were open before, and it
-- returns a text exactly when all four calls succeed, namely the one that `inet_ntop` wrote.
pub get_my_ip_lem :
    (os : Answers) (open_fds : List ℕ) (text : Bytes)
    → ((get_my_ip os open_fds).1 ≡ open_fds)
      × (((get_my_ip os open_fds).0 ≡ ok text)
          ↔ ((os.socket ≢ none) × (os.connects ≡ true) × (os.names ≡ true) × (os.text ≡ some text)))
unfolding get_my_ip
get_my_ip_lem os open_fds text = elim (Option-cases os.socket) [
  | inl e ↦
      (rw (e, get_my_ip) refl, (λ h. cc (rw (e, get_my_ip) at h), λ (h, _, _, _). absurd (h e)))
  | inr (sock, e) ↦ (
    rw (e, get_my_ip) (with_socket-close os sock open_fds),
    (
      λ h.
          let (c, n, x) =
            (with_socket_iff os sock (sock ∷ open_fds) text).0 (rw (e, get_my_ip) at h) in
          (λ m. cc (sym e ∙ m), c, n, x),
      λ (_, c, n, x).
          rw (e, get_my_ip) ((with_socket_iff os sock (sock ∷ open_fds) text).1 (c, n, x)),
    ),
  )
]
