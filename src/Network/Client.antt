-- ===== src/Network/Client.antt =====
-- sources/network/network.cpp and network.hpp, on Linux. The calls of boost::asio
-- are answers in the arguments; what the client starts on the socket is a trace, the newest first.
pub mod Login
pub mod Retry
pub mod Secure
pub mod Stale
use luminousminer.Prelude.{
  ℕ, zero, suc, Bool, true, false, ◌&&◌, List, [], ◌∷◌, ◌++◌, take, drop, Option, none, some,
  if◌then◌else◌, ltb,
}
use luminousminer.Prelude.Text.{Text, is_empty}
use luminousminer.Network.WritePump.{WritePump, empty_pump, enqueue, on_complete}

-- How a call of boost::asio ends: with success, with an error code or with an exception.
pub data Answer : Type 0 where
  ok refuses throws : Answer

abbrev pub passes : Answer → Bool
passes ok = true
passes refuses = false
passes throws = false

-- What one call of `connect` meets outside, in the order of its calls.
pub record Attempt : Type 0 where
  pub trust : Answer  -- the calls that set the verification up, and the default trust paths
  pub address : Answer  -- `make_address(host)`: `refuses` when the host is a name
  pub resolve : Answer
  pub any_endpoint : Bool
  pub proxy : Answer
  pub open_to : Answer
  pub options : Answer  -- both `set_option`
  -- How the handshake ends, by the verification of the context: whether its mode is verify_peer, and
  -- whether its callback is `onVerifySSL`.
  pub shake : Bool → Bool → Answer
  pub login : Answer  -- how the virtual `onConnect` ends
  pub logins : List Text  -- what `onConnect` sends
  pub listen : Answer

pub record Config : Type 0 where
  pub secure_connect : Bool
  pub socks5 : Bool
  pub socks_host : Bool

-- `socketTCP`: nullptr, a socket that is not open, an open one.
pub data Socket : Type 0 where
  absent closed opened : Socket

-- What the client starts on its socket; the flag tells the TLS stream from the plain one.
pub data Effect : Type 0 where
  writes : Bool → Text → Effect
  reads : Bool → Effect
  connected : Effect
  received : Text → Effect

pub record Client : Type 0 where
  pub secure_connection : Bool
  pub verify_peer : Bool  -- the mode of `context`
  pub verify_callback : Bool  -- `onVerifySSL` is set as the callback of `context`
  pub count_retry_connect : ℕ
  pub recv_buffer : Text
  pub socket : Socket
  pub pump : Option (WritePump Text)
  pub attempts : ℕ  -- calls of `connect` so far
  pub effects : List Effect

abbrev pub new_client : Client
new_client = record {
  secure_connection = false;
  verify_peer = false;
  verify_callback = false;
  count_retry_connect = 0;
  recv_buffer = [];
  socket = absent;
  pump = none;
  attempts = 0;
  effects = [];
}

abbrev pub max_retry_count : ℕ
max_retry_count = 10

abbrev pub starts : Effect → Client → Client
starts e c = record c { effects = e ∷ c.effects }

-- An open socket is closed; on another `cancel` changes nothing of the state, also where it throws.
unfoldable pub disconnect : Client → Client
disconnect c = record c {
  socket = elim c.socket [ absent ↦ absent | closed ↦ closed | opened ↦ closed ];
}

-- The part of `transmit` on the strand. Without a socket the pump is told of the failure, which
-- empties it and hands nothing over.
unfoldable pub write_out : Text → Client → Client
write_out payload c = elim c.socket [
  | absent ↦ elim c.pump [ none ↦ c | some p ↦ record c { pump = some (on_complete p false).0 } ]
  | closed ↦ starts (writes c.secure_connection payload) c
  | opened ↦ starts (writes c.secure_connection payload) c
]

unfoldable pub transmit : Option Text → Client → Client
transmit none c = c
transmit (some payload) c = write_out payload c

unfoldable pub send : Text → Client → Client
send payload c = elim c.pump [
  | none ↦ c
  | some p ↦ let (q, out) = enqueue p payload in transmit out (record c { pump = some q })
]

unfoldable pub send_all : List Text → Client → Client
send_all [] c = c
send_all (t ∷ ts) c = send_all ts (send t c)

unfoldable pub on_send : Bool → Client → Client
on_send success c = elim c.pump [
  | none ↦ c
  | some p ↦ let (q, out) = on_complete p success in transmit out (record c { pump = some q })
]

abbrev pub async_receive : Client → Client
async_receive c = starts (reads c.secure_connection) c

abbrev pub secured : Client → Client
secured c = record c { secure_connection = true; verify_peer = true; verify_callback = true }

-- `set_verify_mode(verify_none)`.
abbrev pub unverified : Client → Client
unverified c = record c { verify_peer = false }

abbrev pub counted : Client → Client
counted c = record c { attempts = suc c.attempts }

-- `true` means that the caller goes on. The flag is set before the calls that may throw; a client that one
-- of them stops does not come to a handshake before it sets all of them again.
unfoldable pub do_secure_connection : Attempt → Client → Bool × Client
do_secure_connection a c = (passes a.trust, secured c)

unfoldable pub handshake : Attempt → Client → Bool
handshake a c = passes (a.shake c.verify_peer c.verify_callback)

-- From the address of the pool to a socket: false where `connect` returns false.
unfoldable pub reach : Config → Attempt → Bool
reach config a =
    if config.socks5
    then if config.socks_host then passes a.resolve && a.any_endpoint && passes a.proxy else true
    else elim a.address [
      | ok ↦ passes a.open_to
      | refuses ↦ passes a.resolve && passes a.open_to
      | throws ↦ false
    ]

-- A proxy without its host leaves the socket unopened, on which `set_option` throws.
unfoldable pub socket_opened : Config → Bool
socket_opened config = if config.socks5 then config.socks_host else true

abbrev pub create_pump : Client → Client
create_pump c = elim c.pump [ none ↦ record c { pump = some empty_pump } | some p ↦ c ]

-- What precedes the call of `onConnect`: the pump and the count.
abbrev pub started : Client → Client
started c = starts connected (record (create_pump c) { count_retry_connect = 0 })

-- The last statements of the `try`: the pump, the count, the login and the first read.
unfoldable pub log_in : Attempt → Client → Bool × Client
log_in a c =
    let sent = send_all a.logins (started c) in
    if passes a.login
    then if passes a.listen then (true, async_receive sent) else (false, sent)
    else (false, sent)

-- The steps from the new socket on: options, TLS and login. A socket that did not get through counts as
-- closed, since nothing uses it before `disconnect` or a deletion.
unfoldable pub set_up : Config → Attempt → Client → Bool × Client
set_up config a c =
    let fresh = record c {
      socket = if reach config a && socket_opened config then opened else closed;
    } in
    let logged_in = log_in a fresh in
    if reach config a && socket_opened config && passes a.options
    then if config.secure_connect
      then if handshake a fresh then logged_in else (false, fresh)
      else logged_in
    else (false, fresh)

unfoldable pub connect : Config → Attempt → Client → Bool × Client
connect config a c =
    let (trusts, tls) = do_secure_connection a (counted c) in
    let over_tls = set_up config a tls in
    if config.secure_connect
    then if trusts then over_tls else (false, tls)
    else set_up config a (unverified (counted c))

abbrev pub retried : Client → Client
retried c = record c { count_retry_connect = suc c.count_retry_connect }

-- `retryConnect` calls itself while `connect` fails, on fuel; `none` when the fuel is spent. The n-th
-- call of `connect` meets the n-th attempt of the world.
unfoldable pub retry_connect : Config → (ℕ → Attempt) → ℕ → Client → Option Client
retry_connect config world zero c = none
retry_connect config world (suc fuel) c =
    let down = disconnect (retried c) in
    let (up, next) = connect config (world down.attempts) down in
    let again = retry_connect config world fuel next in
    if ltb max_retry_count down.count_retry_connect
    then some down
    else if up
    then some next
    else again
