-- ===== src/JsonSocket/Read/Loop.antt =====
-- The loop of `_read`: with fuel for each missing byte it ends, and what each end means for the
-- stream.
use python_json_socket.Prelude.{
  ℕ, zero, suc, ◌+◌, ◌-◌, ◌≤◌, ◌<◌, ◌≡◌, refl, sym, ap, ◌∙◌, inl, inr, true, List, [], ◌∷◌, ◌++◌,
  append-nil, append_assoc, length, length-append, arith, ltb, Bool-cases, ltb→lt, ltb_false→le,
}
use python_json_socket.Os.{Recv, Sock, Received, got, timeout, os_error, recv}
use python_json_socket.Os.Stream.{pending, Splits, recv-Splits, recv-sock}
use python_json_socket.JsonSocket.Read.{
  ReadExit, complete, timed_out, ended, failed, cut_off, read_step, read_loop,
}

-- `front` is what the loop took from the stream beyond the bytes that it had.
abbrev pub Exits : ℕ → List ℕ → List ℕ → ReadExit → List Recv → Type 0
Exits size read before (complete all) after =
    (front : List ℕ) × (all ≡ read ++ front)
    × (length all ≡ size)
    × (before ≡ front ++ pending after)
Exits size read before (timed_out all) after = (all ≡ read ++ before) × (length all < size)
Exits size read before ended after = length read + length before < size
Exits size read before failed after = length read + length before < size
Exits size read before cut_off after = ⊥

-- One more `recv` in front of a loop that ended.
Exits-more :
    (size x : ℕ) (read xs before : List ℕ) (l after : List Recv) (exit : ReadExit)
    → before ≡ (x ∷ xs) ++ pending l
    → Exits size (read ++ x ∷ xs) (pending l) exit after
    → Exits size read before exit after
Exits-more size x read xs before l after (complete all) e (front, p, q, r) = (
  (x ∷ xs) ++ front,
  p ∙ append_assoc read (x ∷ xs) front,
  q,
  e ∙ ap (λ b. (x ∷ xs) ++ b) r ∙ sym (append_assoc (x ∷ xs) front (pending after)),
)
Exits-more size x read xs before l after (timed_out all) e (p, q) =
    (p ∙ append_assoc read (x ∷ xs) (pending l) ∙ ap (λ b. read ++ b) (sym e), q)
Exits-more size x read xs before l after ended e h =
    omega (arith, ap length e, length-append (x ∷ xs) (pending l), length-append read (x ∷ xs))
Exits-more size x read xs before l after failed e h =
    omega (arith, ap length e, length-append (x ∷ xs) (pending l), length-append read (x ∷ xs))
Exits-more size x read xs before l after cut_off e h = h

-- The statement of the loop for what one round returned.
abbrev pub Ends : ℕ → List ℕ → List ℕ → ReadExit × Sock → Type 0
Ends size read before (exit, s) = (Exits size read before exit s.inbound) × (s.is_open ≡ true)

read_step-Ends :
    (size : ℕ) (read before : List ℕ) (next : List ℕ → Sock → ReadExit × Sock) (r : Received × Sock)
    → length read < size
    → ((more : List ℕ) (s : Sock)
        → s.is_open ≡ true
        → length read < length more
        → length more ≤ size
        → Ends size more (pending s.inbound) (next more s))
    → r.1.is_open ≡ true
    → Splits (size - length read) before (r.0, r.1.inbound)
    → Ends size read before (read_step next read r)
read_step-Ends size read before next (timeout, s) lt ih o e =
    ((sym (append-nil read) ∙ ap (λ b. read ++ b) (sym e), lt), o)
read_step-Ends size read before next (os_error, s) lt ih o e = (omega (arith, ap length e), o)
read_step-Ends size read before next (got [], s) lt ih o e = (omega (arith, ap length e), o)
read_step-Ends size read before next (got (b ∷ bs), s) lt ih o (fits, e) =
    let grows = length-append read (b ∷ bs) in
    let (exits, still) = ih (read ++ b ∷ bs) s o (omega arith) (omega arith) in
    (Exits-more size b read bs before s.inbound _ _ e exits, still)

recv-Ends :
    (n : ℕ) (s : Sock)
    → 0 < n
    → s.is_open ≡ true
    → Splits n (pending s.inbound) ((recv n s).0, (recv n s).1.inbound)
      × ((recv n s).1.is_open ≡ true)
recv-Ends zero s hn o = absurd (omega arith)
recv-Ends (suc m) s hn o =
    (recv-Splits m s o, ap (λ (t : Sock). t.is_open) (recv-sock (suc m) s) ∙ o)

pub read_loop-Ends :
    (fuel size : ℕ) (read : List ℕ) (s : Sock)
    → s.is_open ≡ true
    → size - length read < fuel
    → length read ≤ size
    → Ends size read (pending s.inbound) (read_loop fuel size read s)
unfolding read_loop
read_loop-Ends zero size read s o hf hs = absurd (omega arith)
read_loop-Ends (suc fuel) size read s o hf hs = elim (Bool-cases (ltb (length read) size)) [
  | inl more ↦
      let (splits, still) = recv-Ends (size - length read) s (omega (arith, ltb→lt _ _ more)) o in
      rw more (
        read_step-Ends size read (pending s.inbound) (read_loop fuel size)
          (recv (size - length read) s) (ltb→lt _ _ more)
          (λ r t ot lt le. read_loop-Ends fuel size r t ot (omega arith) le) still splits)
  | inr enough ↦
      rw enough (([], sym (append-nil read), omega (arith, ltb_false→le _ _ enough), refl), o)
]
