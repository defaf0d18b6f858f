-- ===== src/NetClient/Modes.antt =====
-- scripts/net_client.py: the three modes, the worker of a client, and the exit code. Pauses are left
-- out. What `secrets` draws for a message, which attempts to connect reach the server and how often
-- a wait finds the deadline ahead are arguments.
pub mod Adaptive
pub mod Main
pub mod Session
use python_json_socket.Prelude.{
  ℕ, ℤ, pos, negsuc, zero, suc, ◌+◌, ◌*◌, Bool, true, false, ◌&&◌, List, [], ◌∷◌, Option, none,
  some, Text, codes, ◌==◌, ltb, if◌then◌else◌,
}
use python_json_socket.Codec.{Codec, Value}
use python_json_socket.Os.{Sock, Received, got, timeout, os_error, recv}
use python_json_socket.JsonSocket.{
  State, M, Result, ok, raise, attribute_error, not_connected, pure, throw, put_sock, ◌>>=◌, ◌>>◌,
}
use python_json_socket.JsonSocket.Close.{close}
use python_json_socket.JsonClient.{init_client, connect}
use python_json_socket.NetClient.{
  random_hex, random_pad_size, random_pad_from_ranges, perf_pad_ranges, adaptive_slow_pad_range,
  adaptive_burst_pad_range, adaptive_large_pad_range, payload_from_message, make_payload,
}
use python_json_socket.NetClient.Sending.{
  Corruption, send_and_expect, send_maybe_with_error, send_partial_payload,
}

pub data Mode : Type 0 where
  ping performance adaptive : Mode

-- The command line.
pub record Options : Type 0 where
  pub host : Text
  pub port : ℕ
  pub message : Option Text
  pub mode : Mode
  pub num : ℤ
  pub count : ℤ
  pub cycles : ℤ
  pub error : ℤ
  pub read : ℤ

-- `n == 1`
abbrev pub is_one : ℤ → Bool
is_one (pos n) = n == 1
is_one (negsuc n) = false

-- What is drawn for one message: the hexadecimal digits; `secrets.randbelow` for their number and for
-- the pad size, and the range of this; whether and how the message is broken.
pub record Draw : Type 0 where
  pub token_hex : ℕ → Text
  pub hex : ℕ → ℕ
  pub range : ℕ
  pub pad : ℕ → ℕ
  pub chance : ℕ
  pub corruption : Corruption

-- `random_hex()`
abbrev pub content_of : Draw → Text
content_of draw = random_hex draw.hex draw.token_hex 4 64

-- `jsocket.JsonClient(address=host, port=port)` with its `timeout` of two seconds, and `connect`.
abbrev or_not_connected : Bool → M (Unit {0})
or_not_connected true = pure tt
or_not_connected false = throw not_connected

unfoldable pub connect_client : Options → ℕ → (ℕ → Bool) → M (Unit {0})
unfolding init_client connect
connect_client opts two_seconds reaches =
    init_client opts.host opts.port (some two_seconds) none
    >> (connect reaches >>= or_not_connected)

-- `client = _connect_client(...)`: where that raises, `client` is still the object before.
abbrev assigned : State → Result (Unit {0}) × State → Result (Unit {0}) × State
assigned before (ok done, s) = (ok done, s)
assigned before (raise e, s) = (raise e, record s { self = before.self })

unfoldable pub reconnect : Options → ℕ → (ℕ → Bool) → M (Unit {0})
unfolding close connect_client
reconnect opts two_seconds reaches s =
    assigned s (connect_client opts two_seconds reaches (close s))

-- `try: ... finally: client.close()`
abbrev pub finally_close : {A : Type 0} → M A → M A
finally_close m s = let (r, s') = m s in (r, close s')

-- `range(n)`
abbrev pub rounds : ℤ → ℕ
rounds (pos n) = n
rounds (negsuc n) = 0

module _ (c : Codec) (opts : Options) (two_seconds : ℕ) where
  unfoldable pub run_ping : (Text → Option Value) → Draw → (ℕ → Bool) → M (Option Value)
  unfolding connect_client random_hex payload_from_message send_and_expect
  run_ping loads draw reaches =
      let content = content_of draw in
      connect_client opts two_seconds reaches
      >> finally_close (
          send_and_expect c (payload_from_message loads opts.message content) content
            (is_one opts.read))

  -- `if not ok:` close and connect again.
  abbrev pub or_reconnect : (ℕ → Bool) → Bool → M (Unit {0})
  or_reconnect reaches true = pure tt
  or_reconnect reaches false = reconnect opts two_seconds reaches

  -- One message of a loop: `pads` says how the pad size comes from what is drawn.
  unfoldable pub send_message : ℕ → Text → (Draw → ℕ) → (ℕ → Bool) → ℕ → Draw → M (Unit {0})
  unfolding reconnect random_hex make_payload send_maybe_with_error
  send_message client_id label pads reaches seq draw =
      send_maybe_with_error c draw.chance draw.corruption
        (make_payload client_id seq label (pads draw) (content_of draw)) (content_of draw)
        (is_one opts.error) (is_one opts.read)
      >>= or_reconnect reaches

  -- `for i in range(n)`, by the messages left, with the numbers from `seq` on.
  unfoldable pub send_messages :
      ℕ → Text → (Draw → ℕ) → (ℕ → ℕ → Bool) → (ℕ → Draw) → ℕ → ℕ → M (Unit {0})
  unfolding send_message
  send_messages client_id label pads reaches draws zero seq = pure tt
  send_messages client_id label pads reaches draws (suc n) seq =
      send_message client_id label pads (reaches seq) seq (draws seq)
      >> send_messages client_id label pads reaches draws n (suc seq)

  abbrev pub perf_pad : Draw → ℕ
  perf_pad draw = random_pad_from_ranges draw.pad perf_pad_ranges draw.range

  -- The attempts of the first `_connect_client`, and those after each message.
  unfoldable pub run_performance : ℕ → (ℕ → Bool) → (ℕ → ℕ → Bool) → (ℕ → Draw) → M (Unit {0})
  unfolding connect_client random_pad_from_ranges send_messages
  run_performance client_id first reaches draws =
      connect_client opts two_seconds first
      >> finally_close
          (send_messages client_id (codes "perf") perf_pad reaches draws (rounds opts.count) 0)
