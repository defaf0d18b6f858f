-- ===== src/NetClient/Modes/Adaptive.antt =====
-- scripts/net_client.py: the adaptive mode, with a message that is cut off and the wait for the
-- server to give up on it.
use python_json_socket.Prelude.{
  ℕ, zero, suc, ◌+◌, ◌*◌, Bool, true, false, [], ◌∷◌, Option, none, some, codes,
}
use python_json_socket.Codec.{Codec}
use python_json_socket.Os.{Sock, Received, got, timeout, os_error, recv}
use python_json_socket.JsonSocket.{M, ok, raise, attribute_error, pure, put_sock, ◌>>=◌, ◌>>◌}
use python_json_socket.NetClient.{
  random_hex, random_pad_size, adaptive_slow_pad_range, adaptive_burst_pad_range,
  adaptive_large_pad_range, make_payload,
}
use python_json_socket.NetClient.Sending.{send_partial_payload}
use python_json_socket.NetClient.Modes.{
  Options, Draw, content_of, connect_client, finally_close, send_messages,
}

-- What a round of `_wait_for_disconnect` receives: the end of the stream and an `OSError` end it.
abbrev wait_step : (Sock → Bool × Sock) → Received × Sock → Bool × Sock
wait_step next (got [], s) = (true, s)
wait_step next (got (b ∷ bs), s) = next s
wait_step next (timeout, s) = next s
wait_step next (os_error, s) = (true, s)

unfoldable pub wait_loop : ℕ → Sock → Bool × Sock
wait_loop zero s = (false, s)
wait_loop (suc n) s = wait_step (wait_loop n) (recv 1 s)

-- By the rounds that find the deadline ahead.
abbrev wait_on : Option ℕ → ℕ → M Bool
wait_on none zero s = (ok false, s)
wait_on none (suc n) s = (raise attribute_error, s)
wait_on (some h) n s = let (ended, sock) = wait_loop n (s.os h) in (ok ended, put_sock h sock s)

unfoldable pub wait_for_disconnect : ℕ → M Bool
unfolding wait_loop
wait_for_disconnect n s = wait_on s.self.conn n s

module _ (c : Codec) (opts : Options) (two_seconds : ℕ) where
  abbrev pad_in : ℕ × ℕ → Draw → ℕ
  pad_in (min_len, max_len) draw = random_pad_size draw.pad min_len max_len

  -- The message that is cut off, and the wait for the server's end of the connection.
  abbrev partial_message : ℕ → ℕ → ℕ → Draw → M (Unit {0})
  partial_message client_id waits seq draw =
      send_partial_payload c
        (make_payload client_id seq (codes "timeout") (pad_in (256, 4096) draw) (content_of draw))
      >> (wait_for_disconnect waits >>= λ _. pure tt)

  -- Five slow messages, the partial one, and 25 and 3 fast ones, on a connection for each group.
  unfoldable pub adaptive_cycle :
      ℕ → ℕ → (ℕ → ℕ → Bool) → (ℕ → ℕ → Bool) → (ℕ → Draw) → ℕ → M (Unit {0})
  unfolding connect_client random_hex random_pad_size make_payload send_messages
      send_partial_payload wait_for_disconnect
  adaptive_cycle client_id waits first reaches draws cycle_index =
      let seq = cycle_index * 10000 in
      let slow =
        send_messages c opts two_seconds client_id (codes "slow") (pad_in adaptive_slow_pad_range)
          reaches draws 5 seq in
      let burst =
        send_messages c opts two_seconds client_id (codes "burst") (pad_in adaptive_burst_pad_range)
          reaches draws 25 (seq + 6) in
      let large =
        send_messages c opts two_seconds client_id (codes "large") (pad_in adaptive_large_pad_range)
          reaches draws 3 (seq + 31) in
      connect_client opts two_seconds (first 0)
      >> finally_close slow
      >> connect_client opts two_seconds (first 1)
      >> finally_close (partial_message client_id waits (seq + 5) (draws (seq + 5)))
      >> connect_client opts two_seconds (first 2)
      >> finally_close (burst >> large)

  -- `for cycle_index in range(args.cycles)`
  unfoldable pub run_adaptive :
      ℕ → ℕ → (ℕ → ℕ → ℕ → Bool) → (ℕ → ℕ → Bool) → (ℕ → Draw) → ℕ → ℕ → M (Unit {0})
  unfolding adaptive_cycle
  run_adaptive client_id waits first reaches draws zero cycle_index = pure tt
  run_adaptive client_id waits first reaches draws (suc n) cycle_index =
      adaptive_cycle client_id waits (first cycle_index) reaches draws cycle_index
      >> run_adaptive client_id waits first reaches draws n (suc cycle_index)
