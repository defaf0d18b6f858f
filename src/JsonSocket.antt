-- ===== src/JsonSocket.antt =====
-- jsocket/jsocket_base.py: the state of a `JsonSocket`, its exceptions, and the actions on both.
-- `socket` and `conn` are references to sockets of the operating system, and may be the same one.
pub mod Init
pub mod Close
pub mod Timeouts
pub mod Write
pub mod Read
pub mod Message
pub mod Local
use python_json_socket.Prelude.{
  ℕ, ◌+◌, ◌≡◌, ap, Bool, List, [], Option, none, some, Text, ◌==◌, if◌then◌else◌,
}
use python_json_socket.Os.{Sock, fresh_sock}

pub record JsonSocket : Type 0 where
  pub socket : Option ℕ
  pub conn : Option ℕ
  pub timeout : Option ℕ
  pub accept_timeout : Option ℕ
  pub recv_timeout : Option ℕ
  pub address : Text
  pub port : ℕ
  pub max_message_size : Option ℕ
  pub last_client_addr : Option (Text × ℕ)
  pub is_server : Bool
  pub is_listening : Bool
  pub last_read_size : Option ℕ
  pub last_send_size : Option ℕ

-- The object, the sockets of the process, the next free reference, and the seconds slept.
pub record State : Type 0 where
  pub self : JsonSocket
  pub os : ℕ → Sock
  pub next : ℕ
  pub slept : ℕ

-- The six places that raise a `FramingError`.
pub data Framing : Type 0 where
  read_timeout invalid_magic checksum_mismatch invalid_utf8 invalid_json : Framing
  oversize : ℕ → ℕ → Framing

-- The exceptions that leave a method. `broken` is `RuntimeError("socket connection broken")`;
-- `no_fuel` is no exception of the program: it would mark a loop that was cut off. `unexpected` and
-- `not_connected` are the `RuntimeError`s of scripts/net_client.py.
pub data Exc : Type 0 where
  broken socket_timeout os_error struct_error attribute_error type_error key_error encode_error :
      Exc
  not_positive handler_error no_fuel : Exc
  framing : Framing → Exc
  too_large : ℕ → ℕ → Exc
  unexpected not_connected : Exc
  loads_error : Exc  -- of `json.loads`, and no `JSONDecodeError`

pub data Result (A : Type 0) : Type 0 where
  ok : A → Result A
  raise : Exc → Result A

abbrev pub M : Type 0 → Type 0
M A = State → Result A × State

abbrev pub pure : {A : Type 0} → A → M A
pure a s = (ok a, s)

abbrev pub throw : {A : Type 0} → Exc → M A
throw e s = (raise e, s)

abbrev pub continue : {A B : Type 0} → Result A → (A → M B) → M B
continue (ok a) f s = f a s
continue (raise e) f s = (raise e, s)

infixl 5 ◌>>=◌ ◌>>◌
abbrev pub ◌>>=◌ : {A B : Type 0} → M A → (A → M B) → M B
◌>>=◌ m f s = let (r, s') = m s in continue r f s'

abbrev pub ◌>>◌ : {B : Type 0} → M (Unit {0}) → M B → M B
m >> k = m >>= λ _. k

-- An exception as the value of a fallible step.
abbrev pub or_raise : {A : Type 0} → Exc → Option A → M A
or_raise e none s = (raise e, s)
or_raise e (some a) s = (ok a, s)

-- Writing one field of the object, and one socket of the process.
abbrev pub assign : (JsonSocket → JsonSocket) → M (Unit {0})
assign f s = (ok tt, record s { self = f s.self })

abbrev pub write_sock : ℕ → Sock → (ℕ → Sock) → ℕ → Sock
write_sock h sock os i = if h == i then sock else os i

abbrev pub put_sock : ℕ → Sock → State → State
put_sock h sock s = record s { os = write_sock h sock s.os }

-- `sock.settimeout(t)`: a closed socket raises an `OSError`.
unfoldable pub settimeout : ℕ → Option ℕ → M (Unit {0})
settimeout h t s =
    if (s.os h).is_open
    then (ok tt, put_sock h (record (s.os h) { timeout = t }) s)
    else (raise os_error, s)

-- `socket.socket(AF_INET, SOCK_STREAM)`
unfoldable pub new_socket : M ℕ
new_socket s = (ok s.next, record (put_sock s.next (fresh_sock [] []) s) { next = s.next + 1 })

-- A step that returned goes on with its value, and one that raised ends the chain.
pub bind-ok :
    {A B : Type 0} (m : M A) (f : A → M B) (s s' : State) (a : A)
    → m s ≡ (ok a, s')
    → (m >>= f) s ≡ f a s'
bind-ok {B} m f s s' a e = ap {B = Result B × State} (λ r. continue r.0 f r.1) e

pub bind-raise :
    {A B : Type 0} (m : M A) (f : A → M B) (s s' : State) (x : Exc)
    → m s ≡ (raise x, s')
    → (m >>= f) s ≡ (raise x, s')
bind-raise {B} m f s s' x e = ap {B = Result B × State} (λ r. continue r.0 f r.1) e
