-- ===== src/JsonSocket/Close/Closed.antt =====
-- What closing leaves: which sockets are closed, and which are never touched.
use python_json_socket.Prelude.{
  ℕ, ◌≡◌, ◌≢◌, true, false, ◌&&◌, some, arith, ==_refl, ==_iff, same_ref,
}
use python_json_socket.JsonSocket.{State}
use python_json_socket.JsonSocket.Close.{shut_ref, close_connection, close_socket, close}

-- The connection is not the listening socket of a server, so `_close_connection` closes it.
abbrev pub IsClosable : State → Type 0
IsClosable s = (s.self.is_server && same_ref s.self.conn s.self.socket) ≡ false

shut_ref-closed : (h : ℕ) (s : State) → ((shut_ref h s).os h).is_open ≡ false
shut_ref-closed h s = ground (arith, ==_refl h)

pub close_connection-closed :
    (h : ℕ) (s : State)
    → s.self.conn ≡ some h
    → IsClosable s
    → ((close_connection s).os h).is_open ≡ false
unfolding close_connection
close_connection-closed h s c k = ground (arith, shut_ref-closed h s, ==_refl h)

pub close_connection-self : (s : State) → (close_connection s).self ≡ s.self
unfolding close_connection
close_connection-self s = ground arith

shut_ref-other : (k i : ℕ) (s : State) → i ≢ k → (shut_ref k s).os i ≡ s.os i
shut_ref-other k i s h = ground (arith, ==_iff k i)

-- Whatever closes the connection of a server, its listening socket is left as it was.
pub close_connection-listening :
    (k : ℕ) (s : State)
    → s.self.is_server ≡ true
    → s.self.socket ≡ some k
    → (close_connection s).os k ≡ s.os k
unfolding close_connection
close_connection-listening k s v e = ground arith

-- `close` closes both sockets, marks the object as not listening, and leaves all other sockets.
pub close_both :
    (h k : ℕ) (s : State)
    → s.self.conn ≡ some h
    → s.self.socket ≡ some k
    → (((close s).os h).is_open ≡ false)
      × (((close s).os k).is_open ≡ false)
      × ((close s).self ≡ record s.self { is_listening = false })
      × ((i : ℕ) → i ≢ h → i ≢ k → (close s).os i ≡ s.os i)
unfolding close close_connection close_socket
close_both h k s ch ck = (
  ground (arith, ==_refl h, ==_refl k),
  ground (arith, ==_refl h, ==_refl k),
  ground arith,
  λ i nh nk. ground (arith, ==_iff h i, ==_iff k i),
)

-- Closing takes nothing back of what was handed over.
pub close_connection-delivered :
    (h : ℕ) (s : State) → ((close_connection s).os h).delivered ≡ (s.os h).delivered
unfolding close_connection
close_connection-delivered h s = ground arith
