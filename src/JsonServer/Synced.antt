-- ===== src/JsonServer/Synced.antt =====
-- The timeouts of a server: the listening socket has the accept timeout and the connection the
-- receive timeout, from `__init__` on, whatever the properties are set to.
use python_json_socket.Prelude.{
  ℕ, ◌<◌, ◌≡◌, ◌≢◌, true, List, [], ◌∷◌, Option, some, Text, arith, ==_iff, ==_refl,
}
use python_json_socket.Os.{Sock}
use python_json_socket.JsonSocket.{State, M, ok}
use python_json_socket.JsonSocket.Timeouts.{set_timeout, set_accept_timeout, set_recv_timeout}
use python_json_socket.JsonServer.{init_server, accept_connection, accepted}

-- A server that listens on `k`, with the accept timeout on it; `next` is a free reference.
pub record IsBound (k : ℕ) (s : State) : Type 0 where
  pub server : s.self.is_server ≡ true
  pub main : s.self.socket ≡ some k
  pub open_main : (s.os k).is_open ≡ true
  pub accept : (s.os k).timeout ≡ s.self.accept_timeout
  pub free : k < s.next

-- Beside it an open connection `h` with the receive timeout.
pub record IsSynced (k h : ℕ) (s : State) : Type 0 where
  pub bound : IsBound k s
  pub open bound use *
  pub conn : s.self.conn ≡ some h
  pub apart : k ≢ h
  pub open_conn : (s.os h).is_open ≡ true
  pub recv : (s.os h).timeout ≡ s.self.recv_timeout

-- An assignment to one of the three properties.
pub data Setting : Type 0 where
  timeout accept_timeout recv_timeout : Option ℕ → Setting

abbrev pub set : Setting → M (Unit {0})
set (timeout t) = set_timeout t
set (accept_timeout t) = set_accept_timeout t
set (recv_timeout t) = set_recv_timeout t

abbrev pub set_all : List Setting → State → State
set_all [] s = s
set_all (x ∷ xs) s = set_all xs (set x s).1

set_timeout-IsSynced :
    (t : Option ℕ) (k h : ℕ) (s : State) → IsSynced k h s → IsSynced k h (set_timeout t s).1
unfolding set_timeout
set_timeout-IsSynced t k h s v = ground (arith, ==_refl k, ==_refl h, ==_iff k h, ==_iff h k)

set_accept_timeout-IsSynced :
    (t : Option ℕ) (k h : ℕ) (s : State) → IsSynced k h s → IsSynced k h (set_accept_timeout t s).1
unfolding set_accept_timeout
set_accept_timeout-IsSynced t k h s v = ground (arith, ==_refl k, ==_refl h, ==_iff k h, ==_iff h k)

set_recv_timeout-IsSynced :
    (t : Option ℕ) (k h : ℕ) (s : State) → IsSynced k h s → IsSynced k h (set_recv_timeout t s).1
unfolding set_recv_timeout
set_recv_timeout-IsSynced t k h s v = ground (arith, ==_refl k, ==_refl h, ==_iff k h, ==_iff h k)

init_server-IsBound :
    (address : Text) (port : ℕ) (t a r : Option ℕ) (s : State)
    → ((init_server address port t a r true s).0 ≡ ok tt)
      × IsBound s.next (init_server address port t a r true s).1
unfolding init_server
init_server-IsBound address port t a r s = ground (arith, ==_refl s.next)

pub accept_connection-IsSynced :
    (addr : Text × ℕ) (sock : Sock) (k : ℕ) (s : State)
    → IsBound k s
    → sock.is_open ≡ true
    → ((accept_connection (accepted addr sock) s).0 ≡ ok tt)
      × IsSynced k s.next (accept_connection (accepted addr sock) s).1
unfolding accept_connection
accept_connection-IsSynced addr sock k s b o =
    ground (arith, ==_refl k, ==_refl s.next, ==_iff k s.next, ==_iff s.next k)

set-IsSynced : (x : Setting) (k h : ℕ) (s : State) → IsSynced k h s → IsSynced k h (set x s).1
set-IsSynced (timeout t) = set_timeout-IsSynced t
set-IsSynced (accept_timeout t) = set_accept_timeout-IsSynced t
set-IsSynced (recv_timeout t) = set_recv_timeout-IsSynced t

set_all-IsSynced :
    (xs : List Setting) (k h : ℕ) (s : State) → IsSynced k h s → IsSynced k h (set_all xs s)
set_all-IsSynced [] k h s v = v
set_all-IsSynced (x ∷ xs) k h s v = set_all-IsSynced xs k h (set x s).1 (set-IsSynced x k h s v)

abbrev pub listening : Text → ℕ → Option ℕ → Option ℕ → Option ℕ → State → State
listening address port t a r s = (init_server address port t a r true s).1

-- For a server that was created and bound, whatever its timeout arguments were, that accepted a
-- connection, and after any assignments to `timeout`, `accept_timeout` and `recv_timeout`: the
-- listening socket and the connection are open and distinct, the first has the accept timeout of
-- the object and the second its receive timeout.
pub server_timeouts :
    (address : Text) (port : ℕ) (t a r : Option ℕ) (s : State) (addr : Text × ℕ) (sock : Sock)
    (settings : List Setting)
    → sock.is_open ≡ true
    → IsSynced s.next (listening address port t a r s).next (
        set_all settings
          (accept_connection (accepted addr sock) (listening address port t a r s)).1)
server_timeouts address port t a r s addr sock settings o =
    let bound = listening address port t a r s in
    set_all-IsSynced settings s.next bound.next (accept_connection (accepted addr sock) bound).1
      (accept_connection-IsSynced addr sock s.next bound
        (init_server-IsBound address port t a r s).1 o).1
