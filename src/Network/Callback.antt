-- ===== src/Network/Callback.antt =====
-- sources/network/network_callback.cpp, on Linux: the end of a read, the check of a certificate, and the
-- histories of a client.
use luminousminer.Prelude.{
  ℕ, Bool, false, List, [], ◌∷◌, ◌++◌, take, drop, Option, none, some, if◌then◌else◌,
}
use luminousminer.Prelude.Text.{Text, is_empty}
use luminousminer.Network.Client.{
  Answer, passes, Attempt, Config, received, Client, starts, disconnect, send, send_all, on_send,
  async_receive, connect, retry_connect,
}

-- The error code of a read, as far as the client tells them apart.
pub data ReadCode : Type 0 where
  success eof connection_aborted connection_reset connection_refused other : ReadCode

-- What the virtual `onReceive` does with a message: what it sends and how it ends.
pub record Reaction : Type 0 where
  pub replies : List Text
  pub ending : Answer
  pub listen : Answer

-- What precedes the call of `onReceive`: the message is cut off the buffer.
abbrev pub consumed : ℕ → Client → Client
consumed bytes c = record c { recv_buffer = drop bytes c.recv_buffer }

abbrev pub handed : ℕ → Client → Client
handed bytes c = starts (received (take bytes c.recv_buffer)) (consumed bytes c)

unfoldable pub deliver : ℕ → Reaction → Client → Client
deliver bytes r c =
    let handled = send_all r.replies (handed bytes c) in
    let armed = if passes r.listen then async_receive handled else handled in
    if is_empty (take bytes c.recv_buffer)
    then if passes r.listen then async_receive (consumed bytes c) else consumed bytes c
    else if passes r.ending
    then armed
    else handled

unfoldable pub on_receive_async :
    Config → (ℕ → Attempt) → ℕ → ReadCode → ℕ → Reaction → Client → Option Client
on_receive_async config world fuel code bytes r c = elim code [
  | success ↦ some (deliver bytes r c)
  | eof ↦ retry_connect config world fuel c
  | connection_aborted ↦ retry_connect config world fuel c
  | connection_reset ↦ retry_connect config world fuel c
  | connection_refused ↦ retry_connect config world fuel c
  | other ↦ some (disconnect c)
]

-- One certificate of the chain, as the callback of the verification sees it.
pub record Certificate : Type 0 where
  pub preverified : Bool
  pub present : Bool
  pub matches_host : Bool

unfoldable pub on_verify_ssl : Certificate → Bool
on_verify_ssl cert =
    if cert.preverified then if cert.present then cert.matches_host else false else false

-- What reaches a client: bytes on its socket, a call of `connect` or `send`, the end of a read or a write.
pub data Happening : Type 0 where
  connects : Happening
  sends : Text → Happening
  arrives : Text → Happening
  read_ends : ReadCode → ℕ → Reaction → Happening
  write_ends : Bool → Happening

unfoldable pub happen : Config → (ℕ → Attempt) → ℕ → Client → Happening → Option Client
happen config world fuel c connects = some (connect config (world c.attempts) c).1
happen config world fuel c (sends t) = some (send t c)
happen config world fuel c (arrives t) = some (record c { recv_buffer = c.recv_buffer ++ t })
happen config world fuel c (read_ends code bytes r) =
    on_receive_async config world fuel code bytes r c
happen config world fuel c (write_ends written) = some (on_send written c)

-- A history of the client, as far as it does not run out of fuel.
unfoldable pub run : Config → (ℕ → Attempt) → ℕ → Client → List Happening → Option Client
run config world fuel c [] = some c
run config world fuel c (e ∷ es) = elim (happen config world fuel c e) [
  | none ↦ none
  | some d ↦ run config world fuel d es
]
