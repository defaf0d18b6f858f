-- ===== src/ServerFactory/Init.antt =====
-- `ServerFactory.__init__`: which keyword arguments go to the server and which to its workers.
use python_json_socket.Prelude.{
  ℕ, ℤ, pos, ◌≡◌, Bool, true, false, Option, none, some, Text, codes, arith, ==_refl,
}
use python_json_socket.Framing.{default_max_message_size}
use python_json_socket.JsonSocket.{State, M, ok, key_error, type_error, pure, throw, ◌>>◌}
use python_json_socket.JsonSocket.Init.{Args, blank}
use python_json_socket.JsonServer.{init_server}

-- `**kwargs`: `none` where an argument is not given. A timeout that is given may be `None`. Arguments
-- of the thread and `create_socket` are left out.
pub record Kwargs : Type 0 where
  pub address : Option Text
  pub port : Option ℕ
  pub timeout : Option (Option ℕ)
  pub accept_timeout : Option (Option ℕ)
  pub recv_timeout : Option (Option ℕ)
  pub max_message_size : Option (Option ℤ)

abbrev pub or_default {ℓ} : {A : Type ℓ} → A → Option A → A
or_default a none = a
or_default a (some given) = given

-- What a worker is constructed with: the arguments but for the address, the port and the accept
-- timeout, over the defaults of `JsonSocket.__init__`; `ServerFactoryThread` creates no socket.
abbrev pub thread_args : ℕ → Kwargs → Args
thread_args two_seconds k = record {
  address = codes "127.0.0.1";
  port = 5489;
  timeout = or_default (some two_seconds) k.timeout;
  max_message_size = or_default (some (pos default_max_message_size)) k.max_message_size;
  accept_timeout = none;
  recv_timeout = or_default none k.recv_timeout;
  create_socket = false;
}

abbrev or_type_error : Bool → Args → M Args
or_type_error true args = pure args
or_type_error false args = throw type_error

abbrev with_port : ℕ → Bool → Bool → Kwargs → Text → Option ℕ → M Args
with_port two_seconds binds is_subclass k address none = throw key_error
with_port two_seconds binds is_subclass k address (some port) =
    init_server address port (or_default (some two_seconds) k.timeout)
      (or_default none k.accept_timeout) (or_default none k.recv_timeout) binds
    >> or_type_error is_subclass (thread_args two_seconds k)

abbrev with_address : ℕ → Bool → Bool → Kwargs → Option Text → M Args
with_address two_seconds binds is_subclass k none = throw key_error
with_address two_seconds binds is_subclass k (some address) =
    with_port two_seconds binds is_subclass k address k.port

-- `is_subclass` is `issubclass(server_thread, ServerFactoryThread)`, `binds` whether the operating
-- system lets the address be bound. The arguments of the workers are returned.
unfoldable pub init_factory : ℕ → Bool → Bool → Kwargs → M Args
unfolding init_server
init_factory two_seconds binds is_subclass k =
    with_address two_seconds binds is_subclass k k.address

-- With an address, a port and a class of workers, a factory that can bind is constructed, and a worker
-- has the timeout and the receive timeout of the factory, whichever timeouts were given; the accept
-- timeout of the factory is not handed on.
pub init_factory-timeouts :
    (two_seconds : ℕ) (k : Kwargs) (address : Text) (port : ℕ) (s : State)
    → k.address ≡ some address
    → k.port ≡ some port
    → ((init_factory two_seconds true true k s).0 ≡ ok (thread_args two_seconds k))
      × ((blank (thread_args two_seconds k)).timeout
          ≡ (init_factory two_seconds true true k s).1.self.timeout)
      × ((blank (thread_args two_seconds k)).recv_timeout
          ≡ (init_factory two_seconds true true k s).1.self.recv_timeout)
      × ((blank (thread_args two_seconds k)).accept_timeout
          ≡ or_default (some two_seconds) k.timeout)
unfolding init_factory
init_factory-timeouts two_seconds k address port s a p = ground (arith, ==_refl s.next)
