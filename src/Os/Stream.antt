-- ===== src/Os/Stream.antt =====
-- The byte stream that a socket still has to receive, and what one `recv` takes from it.
use python_json_socket.Prelude.{
  ℕ, suc, ◌≤◌, ◌<◌, ◌≡◌, refl, sym, ap, ◌∙◌, inl, inr, true, false, List, [], ◌∷◌, ◌++◌,
  append_assoc, length, take, drop, arith, leb, take-append-drop, length-take, length-drop,
  Bool-cases, leb→le, leb_false→lt,
}
use python_json_socket.Os.{
  Recv, segment, timed_out, failed, Sock, Received, got, timeout, os_error, recv, recv_from,
}

-- The bytes before the first timeout, error or end, whatever segments they come in.
abbrev pub pending : List Recv → List ℕ
pending [] = []
pending (segment [] ∷ rest) = []
pending (segment (x ∷ b) ∷ rest) = x ∷ b ++ pending rest
pending (timed_out ∷ rest) = []
pending (failed ∷ rest) = []

pending-segment :
    (b : List ℕ) (rest : List Recv) → 0 < length b → pending (segment b ∷ rest) ≡ b ++ pending rest
pending-segment [] rest h = absurd (omega arith)
pending-segment (x ∷ b) rest h = refl

-- What `recv` returned, against the bytes that were pending before and after: at most `n` of the
-- first bytes, or nothing because nothing was pending.
abbrev pub Splits : ℕ → List ℕ → Received × List Recv → Type 0
Splits n before (got [], after) = before ≡ []
Splits n before (got (x ∷ xs), after) = (length (x ∷ xs) ≤ n) × (before ≡ (x ∷ xs) ++ pending after)
Splits n before (timeout, after) = before ≡ []
Splits n before (os_error, after) = before ≡ []

take_segment :
    (m x : ℕ) (b : List ℕ) (rest : List Recv)
    → leb (length (x ∷ b)) (suc m) ≡ false
    → Splits
        (suc m)
        (pending (segment (x ∷ b) ∷ rest))
        (got (x ∷ take m b), segment (drop m b) ∷ rest)
take_segment m x b rest more = (
  omega (arith, length-take m b),
  rw (pending-segment (drop m b) rest (omega (arith, length-drop m b, leb_false→lt _ _ more))) (
      ap (λ l. x ∷ l)
        (ap (λ l. l ++ pending rest) (sym (take-append-drop m b))
          ∙ append_assoc (take m b) (drop m b) (pending rest))),
)

recv_from-Splits : (m : ℕ) (l : List Recv) → Splits (suc m) (pending l) (recv_from (suc m) l)
unfolding recv_from
recv_from-Splits m [] = refl
recv_from-Splits m (segment [] ∷ rest) = ground arith
recv_from-Splits m (segment (y ∷ b) ∷ rest) = elim (Bool-cases (leb (length (y ∷ b)) (suc m))) [
  | inl fits ↦ rw fits (leb→le _ _ fits, refl)
  | inr more ↦ rw more (take_segment m y b rest more)
]
recv_from-Splits m (timed_out ∷ rest) = refl
recv_from-Splits m (failed ∷ rest) = refl

-- The same of `recv` on an open socket, of which nothing but the inbound side changes.
pub recv-Splits :
    (m : ℕ) (s : Sock)
    → s.is_open ≡ true
    → Splits (suc m) (pending s.inbound) ((recv (suc m) s).0, (recv (suc m) s).1.inbound)
unfolding recv
recv-Splits m s o = rw o (recv_from-Splits m s.inbound)

pub recv-sock : (n : ℕ) (s : Sock) → (recv n s).1 ≡ record s { inbound = (recv n s).1.inbound }
unfolding recv
recv-sock n s = ground arith
