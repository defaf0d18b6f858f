-- ===== src/JsonSocket/Message/Spec/Messages.antt =====
-- Any number of messages, one after the other.
use mathlib.Core.Path.{subst}
use python_json_socket.Prelude.{
  ℕ, zero, suc, ◌≡◌, ◌≢◌, refl, sym, ap, ◌∙◌, ◌↔◌, ◌&&◌, same_ref, List, [], ◌∷◌, Option, none,
  some,
}
use python_json_socket.Codec.{Codec, Value}
use python_json_socket.JsonSocket.{
  State, JsonSocket, Result, ok, raise, continue, bind-ok, pure, ◌>>=◌,
}
use python_json_socket.JsonSocket.Close.Closed.{IsClosable}
use python_json_socket.JsonSocket.Read.Exact.{HasStream}
use python_json_socket.JsonSocket.Message.{read_obj}
use python_json_socket.JsonSocket.Message.Spec.{first_message}
use python_json_socket.JsonSocket.Message.Spec.Refined.{first_message-none, first_message-Delivers}
use python_json_socket.Exchange.{read_all}

abbrev then : Value → Option (List Value × List ℕ) → Option (List Value × List ℕ)
then v none = none
then v (some (vs, rest)) = some (v ∷ vs, rest)

abbrev next :
    (List ℕ → Option (List Value × List ℕ)) → Option (Value × List ℕ) → Option (List Value × List ℕ)
next more none = none
next more (some (v, rest)) = then v (more rest)

-- The first `n` messages, and the bytes behind them.
unfoldable pub messages : Codec → Option ℕ → ℕ → List ℕ → Option (List Value × List ℕ)
unfolding first_message
messages c limit zero bytes = some ([], bytes)
messages c limit (suc n) bytes = next (messages c limit n) (first_message c limit bytes)

-- How reads end where the bytes begin with these messages, or with fewer.
abbrev pub ReadsAll : ℕ → Option (List Value × List ℕ) → Result (List Value) × State → Type 0
ReadsAll h none r = (vs : List Value) → r.0 ≢ ok vs
ReadsAll h (some (vs, rest)) r = (r.0 ≡ ok vs) × HasStream h r.1 rest

module _ (c : Codec) (h : ℕ) (limit : Option ℕ) where
  -- A first call that returns nothing leaves the others out.
  stopped :
      (n : ℕ) (r : Result Value × State) (vs : List Value)
      → ((v : Value) → r.0 ≢ ok v)
      → (continue r.0 (λ v. read_all c n >>= λ ws. pure (v ∷ ws)) r.1).0 ≢ ok vs
  stopped n (ok v, t) vs never = absurd (never v refl)
  stopped n (raise e, t) vs never = λ q. cc

  -- One message in front of those that the others read.
  prefixed :
      (v : Value) (o : Option (List Value × List ℕ)) (r : Result (List Value) × State)
      → ReadsAll h o r
      → ReadsAll h (then v o) (continue r.0 (λ ws. pure (v ∷ ws)) r.1)
  prefixed v none (ok ws, t) a = absurd (a ws refl)
  prefixed v none (raise e, t) a = λ vs q. cc
  prefixed v (some (vs, rest)) (ok ws, t) (p, st) = (cc, st)
  prefixed v (some (vs, rest)) (raise e, t) (p, st) = cc

  -- That `n` calls read what `n` messages are.
  abbrev ReadsMessages : ℕ → Type 0
  ReadsMessages n =
      (bytes : List ℕ) (s : State)
      → s.self.conn ≡ some h
      → IsClosable s
      → s.self.max_message_size ≡ limit
      → HasStream h s bytes
      → ReadsAll h (messages c limit n bytes) (read_all c n s)

  after_first :
      (n : ℕ) (more : ReadsMessages n) (bytes : List ℕ) (s : State) (o : Option (Value × List ℕ))
      → s.self.conn ≡ some h
      → IsClosable s
      → s.self.max_message_size ≡ limit
      → HasStream h s bytes
      → first_message c limit bytes ≡ o
      → ReadsAll h (next (messages c limit n) o) (read_all c (suc n) s)
  unfolding read_all
  after_first n more bytes s none conn closable l st e =
      λ vs. stopped n (read_obj c s) vs (first_message-none c h s conn closable bytes st (rw l e))
  after_first n more bytes s (some (v, rest)) conn closable l st e =
      let (size, d) = first_message-Delivers c h s conn closable bytes st v rest (rw l e) in
      let others =
        more rest d.after (ap (λ (o : JsonSocket). o.conn) d.same_self ∙ conn)
          (ap (λ (o : JsonSocket). o.is_server && same_ref o.conn o.socket) d.same_self ∙ closable)
          (ap (λ (o : JsonSocket). o.max_message_size) d.same_self ∙ l) d.has_rest in
      subst (ReadsAll h (then v (messages c limit n rest)))
        (sym
          (bind-ok (read_obj c) (λ w. read_all c n >>= λ ws. pure (w ∷ ws)) s d.after v d.result))
        (prefixed v (messages c limit n rest) (read_all c n d.after) others)

  -- On an open connection with any bytes to receive, in whatever segments, and whatever error,
  -- timeout or end comes behind them: `n` calls of `read_obj` return values exactly where the bytes
  -- begin with `n` messages, return these, and leave what is behind them to receive.
  pub read_all-messages :
      (n : ℕ) (bytes : List ℕ) (s : State)
      → s.self.conn ≡ some h
      → IsClosable s
      → s.self.max_message_size ≡ limit
      → HasStream h s bytes
      → ReadsAll h (messages c limit n bytes) (read_all c n s)
  unfolding messages read_all
  read_all-messages zero bytes s conn closable l st = (refl, st)
  read_all-messages (suc n) bytes s conn closable l st =
      after_first n (read_all-messages n) bytes s (first_message c limit bytes) conn closable l st
        refl

agree :
    (h g : ℕ) (o : Option (List Value × List ℕ)) (r q : Result (List Value) × State)
    (vs : List Value)
    → ReadsAll h o r
    → ReadsAll g o q
    → (r.0 ≡ ok vs) ↔ (q.0 ≡ ok vs)
agree h g none r q vs a b = (λ e. absurd (a vs e), λ e. absurd (b vs e))
agree h g (some (ws, rest)) r q vs (a, left) (b, right) =
    (λ e. b ∙ (sym a ∙ e), λ e. a ∙ (sym b ∙ e))

-- Two open connections, of two objects with the same limit, have the same bytes to receive, each in
-- segments of its own and with whatever error, timeout or end behind them: any number of calls of
-- `read_obj` return the same values on one as on the other.
pub read_all-segments :
    (c : Codec) (n h g : ℕ) (bytes : List ℕ) (s t : State) (vs : List Value)
    → s.self.conn ≡ some h
    → t.self.conn ≡ some g
    → IsClosable s
    → IsClosable t
    → s.self.max_message_size ≡ t.self.max_message_size
    → HasStream h s bytes
    → HasStream g t bytes
    → ((read_all c n s).0 ≡ ok vs) ↔ ((read_all c n t).0 ≡ ok vs)
read_all-segments c n h g bytes s t vs conn conn' closable closable' same st st' =
    let limit = t.self.max_message_size in
    agree h g (messages c limit n bytes) (read_all c n s) (read_all c n t) vs
      (read_all-messages c h limit n bytes s conn closable same st)
      (read_all-messages c g limit n bytes t conn' closable' refl st')
