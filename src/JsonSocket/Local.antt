-- ===== src/JsonSocket/Local.antt =====
-- `read_obj` and `send_obj` touch no socket but the connection, whatever they meet, and no attribute
-- but the two sizes.
pub mod Reading
pub mod Sending
use mathlib.Core.Path.{subst}
use python_json_socket.Prelude.{
  ℕ, zero, suc, ◌≡◌, ◌≢◌, refl, sym, ap, ◌∙◌, Bool, true, false, List, [], ◌∷◌, length, Option,
  none, some, Text, ltb, ◌==◌, ==_iff, text_eq, arith, Bool-cases, inl, inr, same_ref, ◌&&◌,
  if◌then◌else◌,
}
use python_json_socket.Framing.{header_of, checksum_of, frame_magic, frame_header_size}
use python_json_socket.Framing.Header.{unpack_header}
use python_json_socket.Codec.{Codec, Value}
use python_json_socket.Os.{Sock, shut}
use python_json_socket.JsonSocket.{
  JsonSocket, State, M, Result, ok, raise, Exc, broken, socket_timeout, framing, Framing,
  type_error, encode_error, oversize, invalid_magic, checksum_mismatch, invalid_utf8, invalid_json,
  struct_error, read_timeout, continue, or_raise, pure, assign, put_sock, ◌>>=◌, ◌>>◌,
}
use python_json_socket.JsonSocket.Close.{close_connection, shut_option, shut_ref}
use python_json_socket.JsonSocket.Read.{
  ReadExit, complete, timed_out, ended, failed, cut_off, read_loop, finish_read, read_on, read,
}
use python_json_socket.JsonSocket.Write.{
  WriteExit, all_sent, refused, send_loop, finish_send, send_on, send_bytes, check_send_limit,
  check_send_size, send_payload, send_text, send_obj,
}
use python_json_socket.JsonSocket.Message.{
  reject, check_limit, check_read_size, check_header, read_header, or_reject, decode_payload,
  read_payload, read_obj,
}

-- Only the connection `h` and the two sizes may differ.
pub record Local (h : ℕ) (s after : State) : Type 0 where
  pub same_socket : after.self.socket ≡ s.self.socket
  pub same_conn : after.self.conn ≡ s.self.conn
  pub same_server : after.self.is_server ≡ s.self.is_server
  pub same_accept : after.self.accept_timeout ≡ s.self.accept_timeout
  pub same_next : after.next ≡ s.next
  pub others : (i : ℕ) → i ≢ h → after.os i ≡ s.os i

pub Local-refl : (h : ℕ) (s : State) → Local h s s
Local-refl h s = record {
  same_socket = refl;
  same_conn = refl;
  same_server = refl;
  same_accept = refl;
  same_next = refl;
  others = λ i d. refl;
}

pub Local-trans : (h : ℕ) (a b c : State) → Local h a b → Local h b c → Local h a c
Local-trans h a b c p q = record {
  same_socket = q.same_socket ∙ p.same_socket;
  same_conn = q.same_conn ∙ p.same_conn;
  same_server = q.same_server ∙ p.same_server;
  same_accept = q.same_accept ∙ p.same_accept;
  same_next = q.same_next ∙ p.same_next;
  others = λ i d. q.others i d ∙ p.others i d;
}

pub put_sock-Local : (h : ℕ) (sock : Sock) (s : State) → Local h s (put_sock h sock s)
put_sock-Local h sock s = record {
  same_socket = refl;
  same_conn = refl;
  same_server = refl;
  same_accept = refl;
  same_next = refl;
  others = λ i d. elim (Bool-cases (h == i)) [
    | inl equal ↦ absurd (d (sym ((==_iff h i).0 equal)))
    | inr differ ↦ rw differ refl
  ];
}

shut_ref-Local : (h : ℕ) (s : State) → Local h s (shut_ref h s)
shut_ref-Local h s = if_open (s.os h).is_open
  where
    if_open : (up : Bool) → Local h s (if up then put_sock h (shut (s.os h)) s else s)
    if_open true = put_sock-Local h (shut (s.os h)) s
    if_open false = Local-refl h s

-- A method that is local, where the connection is `h`.
abbrev pub IsLocal : {A : Type 0} → ℕ → M A → Type 0
IsLocal h m = (s : State) → s.self.conn ≡ some h → Local h s (m s).1

pub close_connection-Local :
    (h : ℕ) (s : State) → s.self.conn ≡ some h → Local h s (close_connection s)
unfolding close_connection
close_connection-Local h s conn =
    subst
      (λ o. Local h s (
        if s.self.is_server
        then (if same_ref o s.self.socket then s else shut_option o s)
        else shut_option o s))
      (sym conn) (by_kind s.self.is_server (same_ref (some h) s.self.socket))
  where
    by_kind :
        (server main : Bool)
        → Local h s (if server then (if main then s else shut_ref h s) else shut_ref h s)
    by_kind true true = Local-refl h s
    by_kind true false = shut_ref-Local h s
    by_kind false main = shut_ref-Local h s

continue-IsLocal :
    {A B : Type 0} (h : ℕ) (s : State) (r : Result A × State) (f : A → M B)
    → s.self.conn ≡ some h
    → Local h s r.1
    → ((a : A) → IsLocal h (f a))
    → Local h s (continue r.0 f r.1).1
continue-IsLocal h s (raise e, t) f conn l g = l
continue-IsLocal h s (ok a, t) f conn l g = Local-trans h s t _ l (g a t (l.same_conn ∙ conn))

pub bind-IsLocal :
    {A B : Type 0} (h : ℕ) (m : M A) (f : A → M B)
    → IsLocal h m
    → ((a : A) → IsLocal h (f a))
    → IsLocal h (m >>= f)
bind-IsLocal h m f l g s conn = continue-IsLocal h s (m s) f conn (l s conn) g

pub or_raise-IsLocal : {A : Type 0} (h : ℕ) (e : Exc) (o : Option A) → IsLocal h (or_raise e o)
or_raise-IsLocal h e none s conn = Local-refl h s
or_raise-IsLocal h e (some a) s conn = Local-refl h s

pub if-IsLocal :
    {A : Type 0} (h : ℕ) (test : Bool) (m n : M A)
    → IsLocal h m
    → IsLocal h n
    → IsLocal h (if test then m else n)
if-IsLocal h true m n l k = l
if-IsLocal h false m n l k = k

pub assign-IsLocal :
    (h : ℕ) (f : JsonSocket → JsonSocket)
    → ((o : JsonSocket) → (f o).socket ≡ o.socket)
    → ((o : JsonSocket) → (f o).conn ≡ o.conn)
    → ((o : JsonSocket) → (f o).is_server ≡ o.is_server)
    → ((o : JsonSocket) → (f o).accept_timeout ≡ o.accept_timeout)
    → IsLocal h (assign f)
assign-IsLocal h f p q r t s conn = record {
  same_socket = p s.self;
  same_conn = q s.self;
  same_server = r s.self;
  same_accept = t s.self;
  same_next = refl;
  others = λ i d. refl;
}
