-- ===== src/Tests/Client.antt =====
-- sources/network/network.cpp at concrete inputs.
use luminousminer.Prelude.{
  ℕ, suc, ◌+◌, ◌<◌, ◌≡◌, ◌⊎◌, inl, refl, true, false, List, [], ◌∷◌, some, none, if◌then◌else◌, ltb,
  arith,
}
use luminousminer.Network.WritePump.{empty_pump}
use luminousminer.Network.Client.{
  ok, refuses, throws, passes, Attempt, Config, Client, new_client, connected, reads, on_send,
  reach, do_secure_connection, set_up, log_in, send_all, send, transmit, socket_opened, handshake,
  connect, retry_connect,
}
use luminousminer.Network.Callback.{
  Happening, run, sends, arrives, read_ends, write_ends, eof, success, Certificate, on_verify_ssl,
}
use luminousminer.Network.Client.Login.{FailsEarly}
use luminousminer.Network.Client.Retry.{
  IsConnected, HasGivenUp, retry_connect_comes_back, retry_connect_ends, retry_connect_endless,
}
use luminousminer.Network.Client.Stale.{on_send-connect_drops_login}
use luminousminer.Network.Client.Secure.{
  LeavesOn, run-connect_over_tls, accepted, IsTrusted, connect-IsTrusted,
}

abbrev over_tls : Config
over_tls = record { secure_connect = true; socks5 = false; socks_host = false }

abbrev up : Attempt
up = record {
  trust = ok;
  address = refuses;
  resolve = ok;
  any_endpoint = true;
  proxy = ok;
  open_to = ok;
  options = ok;
  shake = λ peer callback. ok;
  login = ok;
  logins = (7 ∷ []) ∷ [];
  listen = ok;
}

abbrev away : Attempt
away = record up { open_to = refuses }

abbrev login_throws : Attempt
login_throws = record up { login = throws }

-- The pool is away twice.
abbrev back_later : ℕ → Attempt
back_later n = if ltb n 2 then away else up

abbrev busy : Client
busy = record new_client { pump = some (record { queue = (5 ∷ []) ∷ []; write_in_flight = true }) }

away_first : (i : ℕ) → i < 2 → FailsEarly over_tls (back_later (0 + i))
unfolding reach socket_opened
away_first i h = ground arith

retry_connect_comes_back_example :
    (r : Client) × (retry_connect over_tls back_later 4 new_client ≡ some r)
    × IsConnected r
    × (r.attempts ≡ 0 + suc 2)
retry_connect_comes_back_example =
    unfold reach socket_opened in
    retry_connect_comes_back over_tls back_later 2 4 new_client (omega arith) away_first
      (refl, refl, refl) (omega arith)

retry_connect_ends_example :
    (r : Client) × (retry_connect over_tls (λ i. away) 11 new_client ≡ some r)
    × (IsConnected r ⊎ HasGivenUp r)
retry_connect_ends_example =
    unfold reach socket_opened in
    retry_connect_ends over_tls (λ i. away) 10 11 new_client (λ i. inl refl) (omega arith)
      (omega arith)

retry_connect_endless_example : retry_connect over_tls (λ i. login_throws) 100 new_client ≡ none
retry_connect_endless_example =
    unfold reach socket_opened in
    retry_connect_endless over_tls (λ i. login_throws) 100 new_client (omega arith)
      (λ i. (refl, refl))

on_send-connect_drops_login_example :
    ((connect over_tls up busy).0 ≡ true)
    × ((on_send false (connect over_tls up busy).1).effects ≡ reads true ∷ connected ∷ [])
    × ((on_send false (connect over_tls up busy).1).pump ≡ some empty_pump)
on_send-connect_drops_login_example =
    unfold reach socket_opened in
    on_send-connect_drops_login over_tls up busy refl (refl, refl, refl)

abbrev session : List Happening
session =
    sends (1 ∷ [])
    ∷ write_ends true
    ∷ arrives (4 ∷ 10 ∷ [])
    ∷ read_ends success 2 (record { replies = (9 ∷ []) ∷ []; ending = ok; listen = ok })
    ∷ read_ends eof 0 (record { replies = []; ending = ok; listen = ok })
    ∷ []

run-connect_over_tls_example :
    LeavesOn over_tls (run over_tls back_later 11 (connect over_tls away new_client).1 session)
run-connect_over_tls_example = run-connect_over_tls over_tls back_later 11 session

abbrev good : Certificate
good = record { preverified = true; present = true; matches_host = true }

good-accepted : passes (up.shake true true) ≡ true → accepted (good ∷ []) ≡ true
unfolding on_verify_ssl
good-accepted h = refl

connect-up : (connect over_tls up new_client).0 ≡ true
unfolding connect do_secure_connection set_up handshake reach socket_opened log_in send_all send
    transmit
connect-up = refl

connect-IsTrusted_example : IsTrusted (good ∷ [])
connect-IsTrusted_example =
    connect-IsTrusted over_tls up new_client (good ∷ []) good-accepted refl connect-up
