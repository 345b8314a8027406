-- ===== src/Network/Client/Login.antt =====
-- `connect` of sources/network/network.cpp: the attempts that fail before the login, and those that come to it.
use luminousminer.Prelude.{
  suc, ◌≡◌, refl, Bool, true, false, ◌&&◌, List, [], ◌∷◌, if◌then◌else◌, arith,
}
use luminousminer.Prelude.Text.{Text}
use luminousminer.Network.WritePump.{enqueue, on_complete}
use luminousminer.Network.Client.{
  passes, Attempt, Config, closed, opened, Client, write_out, transmit, send, send_all, secured,
  counted, unverified, started, do_secure_connection, handshake, reach, socket_opened, log_in,
  set_up, connect,
}

-- The steps from the new socket on, up to the login, under a verification mode and callback.
abbrev pub settles : Config → Attempt → Bool → Bool → Bool
settles config a peer callback =
    reach config a
    && socket_opened config
    && passes a.options
    && (if config.secure_connect then passes (a.shake peer callback) else true)

-- The attempt gets as far as the login of the stratum.
abbrev pub gets_through : Config → Attempt → Bool
gets_through config a =
    (if config.secure_connect then passes a.trust else true) && settles config a true true

-- It fails before that: the pool is away, or its certificate is refused.
abbrev pub FailsEarly : Config → Attempt → Type 0
FailsEarly config a = gets_through config a ≡ false

abbrev pub Succeeds : Config → Attempt → Type 0
Succeeds config a =
    (gets_through config a ≡ true) × (passes a.login ≡ true) × (passes a.listen ≡ true)

-- The login throws, after the pool has accepted.
abbrev pub LoginThrows : Config → Attempt → Type 0
LoginThrows config a = (gets_through config a ≡ true) × (passes a.login ≡ false)

-- What a call of `send` leaves alone.
write_out_count :
    (t : Text) (c : Client) → (write_out t c).count_retry_connect ≡ c.count_retry_connect
unfolding write_out
write_out_count t c = ground arith

send_keeps :
    (t : Text) (c : Client)
    → ((send t c).count_retry_connect ≡ c.count_retry_connect)
      × ((send t c).socket ≡ c.socket)
      × ((send t c).attempts ≡ c.attempts)
unfolding send transmit write_out enqueue on_complete
send_keeps t c = ground arith

send_all_keeps :
    (ts : List Text) (c : Client)
    → ((send_all ts c).count_retry_connect ≡ c.count_retry_connect)
      × ((send_all ts c).socket ≡ c.socket)
      × ((send_all ts c).attempts ≡ c.attempts)
unfolding send_all
send_all_keeps [] c = (refl, refl, refl)
send_all_keeps (t ∷ ts) c = grind (arith, send_keeps t c, send_all_keeps ts (send t c))

-- The client with the new socket, as `set_up` makes it.
abbrev pub with_socket : Config → Attempt → Client → Client
with_socket config a c = record c {
  socket = if reach config a && socket_opened config then opened else closed;
}

set_up_early :
    (config : Config) (a : Attempt) (c : Client)
    → settles config a c.verify_peer c.verify_callback ≡ false
    → set_up config a c ≡ (false, with_socket config a c)
unfolding set_up handshake
set_up_early config a c h = ground arith

set_up_through :
    (config : Config) (a : Attempt) (c : Client)
    → settles config a c.verify_peer c.verify_callback ≡ true
    → set_up config a c ≡ log_in a (with_socket config a c)
unfolding set_up handshake
set_up_through config a c h = ground arith

pub connect_early :
    (config : Config) (a : Attempt) (c : Client)
    → FailsEarly config a
    → ((connect config a c).0 ≡ false)
      × ((connect config a c).1.count_retry_connect ≡ c.count_retry_connect)
      × ((connect config a c).1.attempts ≡ suc c.attempts)
unfolding connect do_secure_connection
connect_early config a c h = ground (
  arith,
  set_up_early config a (unverified (counted c)),
  set_up_early config a (secured (counted c)),
)

-- The client that comes to the login.
abbrev pub at_login : Config → Attempt → Client → Client
at_login config a c = record c {
  attempts = suc c.attempts;
  secure_connection = if config.secure_connect then true else c.secure_connection;
  verify_peer = config.secure_connect;
  verify_callback = if config.secure_connect then true else c.verify_callback;
  socket = opened;
}

pub connect_through :
    (config : Config) (a : Attempt) (c : Client)
    → gets_through config a ≡ true
    → connect config a c ≡ log_in a (at_login config a c)
unfolding connect do_secure_connection
connect_through config a c h = ground (
  arith,
  set_up_through config a (unverified (counted c)),
  set_up_through config a (secured (counted c)),
)

pub log_in_keeps :
    (a : Attempt) (c : Client)
    → ((log_in a c).0 ≡ passes a.login && passes a.listen)
      × ((log_in a c).1.count_retry_connect ≡ 0)
      × ((log_in a c).1.socket ≡ c.socket)
      × ((log_in a c).1.attempts ≡ c.attempts)
unfolding log_in
log_in_keeps a c = ground (arith, send_all_keeps a.logins (started c))
