-- ===== src/Os.antt =====
-- The sockets of the operating system, as the Python `socket` object shows them: what a socket has
-- still to receive, how much each `send` will take, and what has been handed over so far.
pub mod Stream
pub mod Sending
pub mod Halves
use python_json_socket.Prelude.{
  ℕ, Bool, true, false, Option, List, [], ◌∷◌, ◌++◌, length, take, drop, leb, if◌then◌else◌,
}

-- What the next `recv` calls meet. An empty segment is the end of the stream, and so is the end of
-- the list.
pub data Recv : Type 0 where
  segment : List ℕ → Recv
  timed_out : Recv
  failed : Recv

-- What the next `send` calls do: take at most that many bytes, or raise an `OSError` (a timeout is
-- one too). After the end of the list everything is taken.
pub data Send : Type 0 where
  takes : ℕ → Send
  refuses : Send

pub record Sock : Type 0 where
  pub is_open : Bool
  pub timeout : Option ℕ
  pub inbound : List Recv
  pub outbound : List Send
  pub delivered : List ℕ

pub data Received : Type 0 where
  got : List ℕ → Received
  timeout : Received
  os_error : Received

unfoldable pub recv_from : ℕ → List Recv → Received × List Recv
recv_from n [] = (got [], [])
recv_from n (segment b ∷ rest) =
    if leb (length b) n then (got b, rest) else (got (take n b), segment (drop n b) ∷ rest)
recv_from n (timed_out ∷ rest) = (timeout, rest)
recv_from n (failed ∷ rest) = (os_error, rest)

-- `sock.recv(n)`; a closed socket raises an `OSError`.
unfoldable pub recv : ℕ → Sock → Received × Sock
unfolding recv_from
recv n s =
    if s.is_open
    then (let (r, rest) = recv_from n s.inbound in (r, record s { inbound = rest }))
    else (os_error, s)

pub data Sent : Type 0 where
  took : ℕ → Sent
  os_error : Sent

unfoldable pub send_to : List ℕ → List Send → Sock → Sent × Sock
send_to msg [] s = (took (length msg), record s { delivered = s.delivered ++ msg })
send_to msg (takes k ∷ rest) s = (
  took (length (take k msg)),
  record s { outbound = rest; delivered = s.delivered ++ take k msg },
)
send_to msg (refuses ∷ rest) s = (os_error, record s { outbound = rest })

-- `sock.send(msg)`
unfoldable pub send : List ℕ → Sock → Sent × Sock
unfolding send_to
send msg s = if s.is_open then send_to msg s.outbound s else (os_error, s)

-- `shutdown` and `close`, with their errors passed over: the file descriptor is given up.
abbrev pub shut : Sock → Sock
shut s = record s { is_open = false }

-- `socket.socket(AF_INET, SOCK_STREAM)`
abbrev pub fresh_sock : List Recv → List Send → Sock
fresh_sock inbound outbound = record {
  is_open = true;
  timeout = Option.none;
  inbound = inbound;
  outbound = outbound;
  delivered = [];
}
