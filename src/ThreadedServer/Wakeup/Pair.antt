-- ===== src/ThreadedServer/Wakeup/Pair.antt =====
-- What `_init_wakeup` leaves open.
use mathlib.Core.Path.{subst}
use mathlib.Core.Option.{some-injective}
use python_json_socket.Prelude.{
  ℕ, ◌+◌, ◌<◌, ◌≡◌, ◌≢◌, refl, sym, ap, ◌⊎◌, inl, inr, not, ◌&&◌, Bool, true, false, Option, none,
  some, ◌==◌, ==_iff, ==_refl, Bool-cases, arith,
}
use python_json_socket.ThreadedServer.Wakeup.{
  Wakeup, Calls, try_pair, fallback, init_wakeup, create, set_nonblocking, close_one, no_ends,
  pair_or, set_both, connect_pair, with_listener,
}
use python_json_socket.ThreadedServer.Wakeup.Within.{
  Within, create-Within, set_nonblocking-Within, close_one-Within, create-first, create-second,
}

-- Both ends are there, open and not blocking, or neither is.
abbrev pub Ends : Wakeup → Option ℕ → Option ℕ → Type 0
Ends s (some r) (some w) =
    (r ≢ w)
    × ((s.os r).is_open ≡ true)
    × ((s.os w).is_open ≡ true)
    × ((s.os r).timeout ≡ some 0)
    × ((s.os w).timeout ≡ some 0)
Ends s none none = Unit
Ends s _ _ = ⊥

-- What is open was open before or is one of the ends.
pub record Paired (s after : Wakeup) : Type 0 where
  pub ends : Ends after after.reader after.writer
  pub opened :
      (i : ℕ)
      → (after.os i).is_open ≡ true
      → ((s.os i).is_open ≡ true) ⊎ ((after.reader ≡ some i) ⊎ (after.writer ≡ some i))

try_pair-Paired : (c : Calls) (s : Wakeup) → (try_pair c s).0 ≡ true → Paired s (try_pair c s).1
unfolding try_pair
try_pair-Paired c s h = record {
  ends = ground (arith, ==_refl s.next, ==_refl (s.next + 1));
  opened = λ i up. ground (arith, ==_iff s.next i, ==_iff (s.next + 1) i);
}

try_pair-fails :
    (c : Calls) (s : Wakeup)
    → (c.socketpair && not (c.pair_reader && c.pair_writer)) ≡ false
    → (try_pair c s).0 ≡ false
    → (try_pair c s).1 ≡ s
unfolding try_pair
try_pair-fails c s whole h = ground arith

-- The state before the listener `h` is closed.
record Left (h : ℕ) (s t : Wakeup) : Type 0 where
  ends : Ends t t.reader t.writer
  apart : (t.reader ≢ some h) × (t.writer ≢ some h)
  opened : Within (λ i. (h ≡ i) ⊎ ((t.reader ≡ some i) ⊎ (t.writer ≡ some i))) s t

without_ends : (h : ℕ) (s t : Wakeup) → Within (λ i. h ≡ i) s t → Left h s (no_ends t)
unfolding Within
without_ends h s t w = record {
  ends = tt;
  apart = ((λ e. cc e), (λ e. cc e));
  opened = λ i up. elim (w i up) [ inl before ↦ inl before | inr same ↦ inr (inl same) ];
}

both_Ends :
    (reader writer : ℕ) (t : Wakeup)
    → writer < reader
    → (t.os reader).is_open ≡ true
    → (t.os writer).is_open ≡ true
    → Ends (set_nonblocking writer (set_nonblocking reader t)) (some reader) (some writer)
both_Ends reader writer t behind up_r up_w =
    let apart : (writer == reader) ≡ false = ground arith in
    let apart' : (reader == writer) ≡ false = ground arith in
    let distinct : reader ≢ writer = λ e. omega (arith, e) in
    rw (==_refl reader, ==_refl writer, apart, apart') (distinct, up_r, up_w, refl, refl)

module _ (c : Calls) (h writer : ℕ) (s : Wakeup) (after_h : h < writer) where
  set_both-Left :
      (reader : ℕ) (t : Wakeup)
      → writer < reader
      → (t.os reader).is_open ≡ true
      → (t.os writer).is_open ≡ true
      → Within (λ i. (reader ≡ i) ⊎ ((writer ≡ i) ⊎ (h ≡ i))) s t
      → Left h s (set_both c reader writer t)
  unfolding Within
  set_both-Left reader t behind up_r up_w w =
      let P : ℕ → Type 0 = λ i. (reader ≡ i) ⊎ ((writer ≡ i) ⊎ (h ≡ i)) in
      let one = set_nonblocking reader t in
      let both = set_nonblocking writer one in
      let w_one = set_nonblocking-Within P reader s t w in
      let w_both = set_nonblocking-Within P writer s one w_one in
      let given_up : (u : Wakeup)
          → Within P s u
          → Left h s (no_ends (close_one writer (close_one reader u))) =
        λ u v. without_ends h s (close_one writer (close_one reader u)) (
          close_one-Within (λ i. h ≡ i) writer s (close_one reader u)
            (close_one-Within (λ i. (writer ≡ i) ⊎ (h ≡ i)) reader s u v)) in
      elim (Bool-cases c.reader_set) [
        | inr fails ↦ rw fails (given_up t w)
        | inl first ↦ elim (Bool-cases c.writer_set) [
          | inr fails ↦ rw (first, fails) (given_up one w_one)
          | inl second ↦
              rw (first, second)
                (record {
                  ends = both_Ends reader writer t behind up_r up_w;
                  apart = (
                    (λ e. omega (arith, some-injective _ _ e)),
                    (λ e. omega (arith, some-injective _ _ e)),
                  );
                  opened = λ i up. elim (w_both i up) [
                    | inl before ↦ inl before
                    | inr (inl r) ↦ inr (inr (inl (ap some r)))
                    | inr (inr (inl w')) ↦ inr (inr (inr (ap some w')))
                    | inr (inr (inr l)) ↦ inr (inl l)
                  ];
                })
        ]
      ]

  connect_pair-Left :
      (t : Wakeup)
      → writer < t.next
      → (t.os writer).is_open ≡ true
      → Within (λ i. (writer ≡ i) ⊎ (h ≡ i)) s t
      → Left h s (connect_pair c writer t)
  connect_pair-Left t behind up w =
      let failed =
        without_ends h s (close_one writer t) (close_one-Within (λ i. h ≡ i) writer s t w) in
      let apart : (t.next == writer) ≡ false = ground arith in
      elim (Bool-cases c.connect) [
        | inr fails ↦ rw fails failed
        | inl connects ↦ elim (Bool-cases c.accept) [
          | inr fails ↦ rw (connects, fails) failed
          | inl accepts ↦
              rw (connects, accepts)
                (set_both-Left t.next (create t) behind (rw (==_refl t.next) refl) (rw apart up)
                  (create-Within (λ i. (writer ≡ i) ⊎ (h ≡ i)) s t w))
        ]
      ]

-- Closing the listener leaves the ends.
Ends-close_one :
    (h : ℕ) (t : Wakeup) (reader writer : Option ℕ)
    → (reader ≢ some h)
    → (writer ≢ some h)
    → Ends t reader writer
    → Ends (close_one h t) reader writer
Ends-close_one h t none none nr nw e = tt
Ends-close_one h t (some r) (some w) nr nw e =
    let r_apart : (h == r) ≡ false = ground (arith, ==_iff h r) in
    let w_apart : (h == w) ≡ false = ground (arith, ==_iff h w) in rw (r_apart, w_apart) e
Ends-close_one h t none (some w) nr nw e = absurd e
Ends-close_one h t (some r) none nr nw e = absurd e

Left-Paired : (h : ℕ) (s t : Wakeup) → Left h s t → Paired s (close_one h t)
unfolding Within
Left-Paired h s t l = record {
  ends = Ends-close_one h t t.reader t.writer l.apart.0 l.apart.1 l.ends;
  opened = close_one-Within (λ i. (t.reader ≡ some i) ⊎ (t.writer ≡ some i)) h s t l.opened;
}

no_ends-Paired : (s : Wakeup) → Paired s (no_ends s)
no_ends-Paired s = record { ends = tt; opened = λ i up. inl up }

with_listener-Left : (c : Calls) (s : Wakeup) → Left s.next s (with_listener c (create s))
with_listener-Left c s = elim (Bool-cases (c.setsockopt && c.bind && c.listen && c.writer)) [
  | inr fails ↦ rw fails (without_ends s.next s (create s) (create-first s))
  | inl works ↦ rw works (
      connect_pair-Left c s.next (s.next + 1) s (omega arith) (create (create s)) (omega arith)
        (rw (==_refl (s.next + 1)) refl) (create-second s))
]

fallback-Paired : (c : Calls) (s : Wakeup) → Paired s (fallback c s)
unfolding fallback
fallback-Paired c s = elim (Bool-cases c.listener) [
  | inr fails ↦ rw fails (no_ends-Paired s)
  | inl works ↦
      rw works (Left-Paired s.next s (with_listener c (create s)) (with_listener-Left c s))
]

pair_or-Paired :
    (c : Calls) (s : Wakeup) (r : Bool × Wakeup)
    → (r.0 ≡ true → Paired s r.1)
    → (r.0 ≡ false → r.1 ≡ s)
    → Paired s (pair_or c r)
pair_or-Paired c s (true, t) works fails = works refl
pair_or-Paired c s (false, t) works fails =
    subst (λ u. Paired s (fallback c u)) (sym (fails refl)) (fallback-Paired c s)

-- A socket pair that can be made can be set not to block. Whichever other calls fail: the server has
-- two wakeup sockets, which are distinct, open and do not block, or has none; and every socket that is
-- open was open before or is one of the two.
pub init_wakeup-Paired :
    (c : Calls) (s : Wakeup)
    → (c.socketpair && not (c.pair_reader && c.pair_writer)) ≡ false
    → Paired s (init_wakeup c s)
unfolding init_wakeup
init_wakeup-Paired c s whole =
    pair_or-Paired c s (try_pair c s) (try_pair-Paired c s) (try_pair-fails c s whole)
