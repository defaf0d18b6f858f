-- ===== src/NetClient/Sending/Refused.antt =====
-- The pass of a server's loop whose read is refused.
use mathlib.Core.Path.{subst}
use python_json_socket.Stats.Failures.Noted.{IsActive, CountsOne, note_failure-CountsOne}
use python_json_socket.Prelude.{sym, Bool, ℕ, ◌≡◌, ap, ◌∙◌, false, some, Text}
use python_json_socket.Codec.{Codec, Value}
use python_json_socket.JsonSocket.{Framing}
use python_json_socket.JsonSocket.Close.Closed.{IsClosable, close_connection-closed}
use python_json_socket.Stats.{ClientStats, Tracker, note_failure}
use python_json_socket.Stats.Failures.{note_framing_failure}
use python_json_socket.Stats.Failures.Kinds.{kind_of, framing_failure_kind-kind_of}
use python_json_socket.Serving.{Server, Turn, serve_turn, after_read}
use python_json_socket.NetClient.Sending.Rejected.{Rejects}

note_framing_failure-kind_of :
    (e : Framing) (t : Tracker) → note_framing_failure e t ≡ note_failure (kind_of e) t
unfolding note_framing_failure
note_framing_failure-kind_of e t = ap (λ k. note_failure k t) (framing_failure_kind-kind_of e)

-- It ends the loop, counts the failure for the active client and leaves a closed connection.
pub refused_turn :
    (repr : Value → Text) (c : Codec) (e : Framing) (h : ℕ) (turn : Turn) (sv : Server) (id : Text)
    (entry : ClientStats)
    → IsClosable sv.sock
    → sv.sock.self.conn ≡ some h
    → Rejects c e h sv.sock
    → IsActive id entry sv.stats
    → ((serve_turn repr c turn sv).0 ≡ false)
      × CountsOne (kind_of e) id entry sv.stats (serve_turn repr c turn sv).1.stats
      × (((serve_turn repr c turn sv).1.sock.os h).is_open ≡ false)
unfolding serve_turn
refused_turn repr c e h turn sv id entry closable conn r active =
    let step = ap (λ r. after_read repr c turn r sv.stats) r.result in
    (
      ap (λ (p : Bool × Server). p.0) step,
      subst (CountsOne (kind_of e) id entry sv.stats)
          (sym
            (ap (λ (p : Bool × Server). p.1.stats) step ∙ note_framing_failure-kind_of e sv.stats))
          (note_failure-CountsOne (kind_of e) id entry sv.stats active),
      ap (λ (p : Bool × Server). (p.1.sock.os h).is_open) step
          ∙ close_connection-closed h r.before (r.same_conn ∙ conn)
              (rw (r.same_conn, r.same_main, r.same_server) closable),
    )
