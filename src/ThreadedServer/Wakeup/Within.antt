-- ===== src/ThreadedServer/Wakeup/Within.antt =====
-- Which sockets the steps of `_init_wakeup` open and close.
use python_json_socket.Prelude.{
  ℕ, ◌+◌, ◌≡◌, sym, ap, ◌∙◌, ◌⊎◌, inl, inr, true, ◌==◌, ==_iff, Bool-cases,
}
use python_json_socket.ThreadedServer.Wakeup.{Wakeup, create, set_nonblocking, close_one}

-- What is open was open before or has the property.
unfoldable pub Within : (ℕ → Type 0) → Wakeup → Wakeup → Type 0
Within P s t = (i : ℕ) → (t.os i).is_open ≡ true → ((s.os i).is_open ≡ true) ⊎ P i

pub create-Within :
    (P : ℕ → Type 0) (s t : Wakeup) → Within P s t → Within (λ i. (t.next ≡ i) ⊎ P i) s (create t)
unfolding Within
create-Within P s t w i up = elim (Bool-cases (t.next == i)) [
  | inl same ↦ inr (inl ((==_iff t.next i).0 same))
  | inr other ↦ elim (w i (rw other at up)) [ inl before ↦ inl before | inr its ↦ inr (inr its) ]
]

pub set_nonblocking-Within :
    (P : ℕ → Type 0) (h : ℕ) (s t : Wakeup) → Within P s t → Within P s (set_nonblocking h t)
unfolding Within
set_nonblocking-Within P h s t w i up = elim (Bool-cases (h == i)) [
  | inl same ↦ w i (ap (λ j. (t.os j).is_open) (sym ((==_iff h i).0 same)) ∙ (rw same at up))
  | inr other ↦ w i (rw other at up)
]

pub close_one-Within :
    (P : ℕ → Type 0) (h : ℕ) (s t : Wakeup)
    → Within (λ i. (h ≡ i) ⊎ P i) s t
    → Within P s (close_one h t)
unfolding Within
close_one-Within P h s t w i up = elim (Bool-cases (h == i)) [
  | inl same ↦ cc (rw same at up)
  | inr other ↦ elim (w i (rw other at up)) [
    | inl before ↦ inl before
    | inr (inl same) ↦ cc (sym other ∙ (==_iff h i).1 same)
    | inr (inr its) ↦ inr its
  ]
]

pub create-first : (s : Wakeup) → Within (λ i. s.next ≡ i) s (create s)
unfolding Within
create-first s i up = elim (create-Within (λ i. ⊥) s s (λ j u. inl u) i up) [
  | inl before ↦ inl before
  | inr (inl same) ↦ inr same
  | inr (inr never) ↦ elim never [ ]
]

pub create-second :
    (s : Wakeup) → Within (λ i. (s.next + 1 ≡ i) ⊎ (s.next ≡ i)) s (create (create s))
create-second s = create-Within (λ i. s.next ≡ i) s (create s) (create-first s)
