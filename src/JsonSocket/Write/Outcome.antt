-- ===== src/JsonSocket/Write/Outcome.antt =====
-- Every way in which `send_obj` may end on an open connection.
use mathlib.Core.Path.{subst}
use python_json_socket.Prelude.{
  ℕ, suc, ◌<◌, ◌≡◌, refl, sym, ap, ◌∙◌, true, false, List, ◌++◌, append_assoc, length,
  length-append, some, arith, ==_refl, ◌&&◌, same_ref,
}
use python_json_socket.Os.{Sock}
use python_json_socket.JsonSocket.{State, JsonSocket, Result, ok, raise, broken, put_sock, continue}
use python_json_socket.JsonSocket.Close.Closed.{
  IsClosable, close_connection-closed, close_connection-delivered,
}
use python_json_socket.JsonSocket.Write.{
  WriteExit, all_sent, refused, cut_off, send_loop, send_bytes, send_on, finish_send,
}
use python_json_socket.JsonSocket.Write.Loop.{Writes, send_loop-Writes}

-- A proper prefix of the message was handed over, and the connection was closed.
pub record IsCut (msg : List ℕ) (h : ℕ) (s after : State) : Type 0 where
  pub front : List ℕ
  pub back : List ℕ
  pub split : msg ≡ front ++ back
  pub missing : 0 < length back
  pub delivered : (after.os h).delivered ≡ (s.os h).delivered ++ front
  pub is_shut : (after.os h).is_open ≡ false

-- All of the message was handed over, and the connection stays.
pub record IsSent (msg : List ℕ) (h : ℕ) (s after : State) : Type 0 where
  pub delivered : (after.os h).delivered ≡ (s.os h).delivered ++ msg
  pub still_open : (after.os h).is_open ≡ true
  pub same_self : after.self ≡ s.self

abbrev pub SendOutcome : List ℕ → ℕ → State → Result (Unit {0}) × State → Type 0
SendOutcome msg h s (ok _, after) = IsSent msg h s after
SendOutcome msg h s (raise broken, after) = IsCut msg h s after
SendOutcome msg h s (raise other, after) = ⊥

module _ (h : ℕ) (s : State) (conn : s.self.conn ≡ some h) (closable : IsClosable s) where
  finish_send-SendOutcome :
      (msg : List ℕ) (run : WriteExit × Sock)
      → Writes msg (s.os h) run
      → SendOutcome msg h s (finish_send run.0 (put_sock h run.1 s))
  finish_send-SendOutcome msg (all_sent, t) (d, o, w) = record {
    delivered = rw (==_refl h) d;
    still_open = rw (==_refl h) o;
    same_self = refl;
  }
  finish_send-SendOutcome msg (refused, t) (front, back, p, q, d, o, w) = record {
    front = front;
    back = back;
    split = p;
    missing = q;
    delivered = close_connection-delivered h (put_sock h t s) ∙ rw (==_refl h) d;
    is_shut = close_connection-closed h (put_sock h t s) conn closable;
  }
  finish_send-SendOutcome msg (cut_off, t) e = absurd e

  pub send_bytes-SendOutcome :
      (msg : List ℕ) → (s.os h).is_open ≡ true → SendOutcome msg h s (send_bytes msg s)
  unfolding send_bytes
  send_bytes-SendOutcome msg o =
      subst (λ c. SendOutcome msg h s (send_on c msg s)) (sym conn)
        (finish_send-SendOutcome msg (send_loop (suc (length msg)) msg 0 (s.os h))
          (send_loop-Writes (suc (length msg)) msg 0 (s.os h) o (omega arith)))

-- The payload behind a header that was handed over.
second_outcome :
    (first second : List ℕ) (h : ℕ) (s t : State) (r : Result (Unit {0}) × State)
    → IsSent first h s t
    → SendOutcome second h t r
    → SendOutcome (first ++ second) h s r
second_outcome first second h s t (ok _, after) one two = record {
  delivered =
      two.delivered
      ∙ ap (λ l. l ++ second) one.delivered
      ∙ append_assoc (s.os h).delivered first second;
  still_open = two.still_open;
  same_self = two.same_self ∙ one.same_self;
}
second_outcome first second h s t (raise broken, after) one two = record {
  front = first ++ two.front;
  back = two.back;
  split = ap (λ l. first ++ l) two.split ∙ sym (append_assoc first two.front two.back);
  missing = two.missing;
  delivered =
      two.delivered
      ∙ ap (λ l. l ++ two.front) one.delivered
      ∙ append_assoc (s.os h).delivered first two.front;
  is_shut = two.is_shut;
}
second_outcome first second h s t (raise other, after) one two = absurd two

pub both_outcome :
    (first second : List ℕ) (h : ℕ) (s : State) (r : Result (Unit {0}) × State)
    → s.self.conn ≡ some h
    → IsClosable s
    → SendOutcome first h s r
    → SendOutcome (first ++ second) h s (continue r.0 (λ _. send_bytes second) r.1)
both_outcome first second h s (ok _, t) conn closable one =
    second_outcome first second h s t (send_bytes second t) one (
      send_bytes-SendOutcome h t (ap (λ (o : JsonSocket). o.conn) one.same_self ∙ conn)
        (ap (λ (o : JsonSocket). o.is_server && same_ref o.conn o.socket) one.same_self ∙ closable)
        second one.still_open)
both_outcome first second h s (raise broken, t) conn closable one = record {
  front = one.front;
  back = one.back ++ second;
  split = ap (λ l. l ++ second) one.split ∙ append_assoc one.front one.back second;
  missing = omega (arith, one.missing, length-append one.back second);
  delivered = one.delivered;
  is_shut = one.is_shut;
}
both_outcome first second h s (raise other, t) conn closable one = absurd one
