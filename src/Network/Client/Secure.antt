-- ===== src/Network/Client/Secure.antt =====
-- TLS in sources/network/network.cpp and network_callback.cpp: what a client that is told to use it
-- writes and reads.
use luminousminer.Prelude.{
  ℕ, zero, suc, ◌≡◌, ◌∙◌, refl, ltb, Bool, true, false, List, [], ◌∷◌, Option, none, some, arith,
  if◌then◌else◌, not, ◌&&◌,
}
use luminousminer.Prelude.Text.{Text}
use luminousminer.Network.WritePump.{enqueue, on_complete}
use luminousminer.Network.Client.Login.{with_socket}
use luminousminer.Network.Client.{
  passes, retried, max_retry_count, Attempt, Config, Effect, writes, reads, connected, received,
  Client, new_client, started, write_out, transmit, send, send_all, on_send, do_secure_connection,
  handshake, log_in, set_up, counted, unverified, secured, connect, disconnect, retry_connect,
}
use luminousminer.Network.Callback.{
  Certificate, on_verify_ssl, run, handed, success, eof, connection_aborted, connection_reset,
  connection_refused, other, Reaction, deliver, on_receive_async, Happening, connects, sends,
  arrives, read_ends, write_ends, happen,
}

-- Whether each write and read of the trace is on the stream that is asked for.
abbrev pub all_over : Bool → List Effect → Bool
all_over tls [] = true
all_over tls (writes b t ∷ es) = (if b then tls else not tls) && all_over tls es
all_over tls (reads b ∷ es) = (if b then tls else not tls) && all_over tls es
all_over tls (connected ∷ es) = all_over tls es
all_over tls (received t ∷ es) = all_over tls es

-- The client is on the stream of the configuration, and so is all that it started.
abbrev pub IsOn : Bool → Client → Type 0
IsOn tls c = (c.secure_connection ≡ tls) × (all_over tls c.effects ≡ true)

module _ (tls : Bool) where
  send-IsOn : (t : Text) (c : Client) → IsOn tls c → IsOn tls (send t c)
  unfolding send transmit write_out enqueue on_complete
  send-IsOn t c h = ground arith

  send_all-IsOn : (ts : List Text) (c : Client) → IsOn tls c → IsOn tls (send_all ts c)
  unfolding send_all
  send_all-IsOn [] c h = h
  send_all-IsOn (t ∷ ts) c h = send_all-IsOn ts (send t c) (send-IsOn t c h)

  on_send-IsOn : (b : Bool) (c : Client) → IsOn tls c → IsOn tls (on_send b c)
  unfolding on_send transmit write_out on_complete
  on_send-IsOn b c h = ground arith

  log_in-IsOn : (a : Attempt) (c : Client) → IsOn tls c → IsOn tls (log_in a c).1
  unfolding log_in
  log_in-IsOn a c h = ground (arith, send_all-IsOn a.logins (started c))

  set_up-IsOn :
      (config : Config) (a : Attempt) (c : Client) → IsOn tls c → IsOn tls (set_up config a c).1
  unfolding set_up
  set_up-IsOn config a c h = ground (arith, log_in-IsOn a (with_socket config a c))

  disconnect-IsOn : (c : Client) → IsOn tls c → IsOn tls (disconnect c)
  unfolding disconnect
  disconnect-IsOn c h = ground arith

  deliver-IsOn : (bytes : ℕ) (r : Reaction) (c : Client) → IsOn tls c → IsOn tls (deliver bytes r c)
  unfolding deliver
  deliver-IsOn bytes r c h = ground (arith, send_all-IsOn r.replies (handed bytes c))

module _ (config : Config) where
  -- A client that has not connected yet, or is on the stream that the configuration asks for.
  abbrev IsReady : Client → Type 0
  IsReady c =
      (config.secure_connect ≡ false → c.secure_connection ≡ false)
      × (all_over config.secure_connect c.effects ≡ true)

  connect-IsOn :
      (a : Attempt) (c : Client) → IsReady c → IsOn config.secure_connect (connect config a c).1
  unfolding connect do_secure_connection
  connect-IsOn a c h = ground (
    arith,
    set_up-IsOn config.secure_connect config a (unverified (counted c)),
    set_up-IsOn config.secure_connect config a (secured (counted c)),
  )

  on-IsReady : (c : Client) → IsOn config.secure_connect c → IsReady c
  on-IsReady c h = (λ no_tls. h.0 ∙ no_tls, h.1)

  -- What a run leaves, where it ends.
  abbrev pub LeavesOn : Option Client → Type 0
  LeavesOn none = Unit {0}
  LeavesOn (some c) = IsOn config.secure_connect c

  if-LeavesOn :
      (b : Bool) (x y : Option Client) → LeavesOn x → LeavesOn y → LeavesOn (if b then x else y)
  if-LeavesOn true x y hx hy = hx
  if-LeavesOn false x y hx hy = hy

  then-LeavesOn :
      (o : Option Client) (f : Client → Option Client)
      → LeavesOn o
      → ((d : Client) → IsOn config.secure_connect d → LeavesOn (f d))
      → LeavesOn (elim o [ none ↦ none | some d ↦ f d ])
  then-LeavesOn none f h k = tt
  then-LeavesOn (some d) f h k = k d h

  module _ (world : ℕ → Attempt) where
    retry_connect-LeavesOn :
        (fuel : ℕ) (c : Client)
        → IsOn config.secure_connect c
        → LeavesOn (retry_connect config world fuel c)
    unfolding retry_connect
    retry_connect-LeavesOn zero c h = tt
    retry_connect-LeavesOn (suc fuel) c h =
        let d = disconnect-IsOn config.secure_connect (retried c) h in
        let out = disconnect (retried c) in
        let next = connect-IsOn (world out.attempts) out (on-IsReady out d) in
        if-LeavesOn (ltb max_retry_count out.count_retry_connect) _ _ d (
          if-LeavesOn (connect config (world out.attempts) out).0 _ _ next
            (retry_connect-LeavesOn fuel (connect config (world out.attempts) out).1 next))

    happen-LeavesOn :
        (fuel : ℕ) (c : Client) (e : Happening)
        → IsOn config.secure_connect c
        → LeavesOn (happen config world fuel c e)
    unfolding happen on_receive_async
    happen-LeavesOn fuel c connects h = connect-IsOn (world c.attempts) c (on-IsReady c h)
    happen-LeavesOn fuel c (sends t) h = send-IsOn config.secure_connect t c h
    happen-LeavesOn fuel c (arrives t) h = h
    happen-LeavesOn fuel c (read_ends success n r) h = deliver-IsOn config.secure_connect n r c h
    happen-LeavesOn fuel c (read_ends eof n r) h = retry_connect-LeavesOn fuel c h
    happen-LeavesOn fuel c (read_ends connection_aborted n r) h = retry_connect-LeavesOn fuel c h
    happen-LeavesOn fuel c (read_ends connection_reset n r) h = retry_connect-LeavesOn fuel c h
    happen-LeavesOn fuel c (read_ends connection_refused n r) h = retry_connect-LeavesOn fuel c h
    happen-LeavesOn fuel c (read_ends other n r) h = disconnect-IsOn config.secure_connect c h
    happen-LeavesOn fuel c (write_ends b) h = on_send-IsOn config.secure_connect b c h

    run-LeavesOn :
        (fuel : ℕ) (c : Client) (es : List Happening)
        → IsOn config.secure_connect c
        → LeavesOn (run config world fuel c es)
    unfolding run
    run-LeavesOn fuel c [] h = h
    run-LeavesOn fuel c (e ∷ es) h =
        then-LeavesOn (happen config world fuel c e) (λ d. run config world fuel d es)
          (happen-LeavesOn fuel c e h) (λ d k. run-LeavesOn fuel d es k)

    -- From the first call of `connect` on, over any calls, messages, failures and reconnections, each
    -- write and each read of the client is on the TLS stream exactly when the configuration asks for
    -- TLS, in whatever state a run stops.
    pub run-connect_over_tls :
        (fuel : ℕ) (es : List Happening)
        → LeavesOn (run config world fuel (connect config (world 0) new_client).1 es)
    run-connect_over_tls fuel es =
        run-LeavesOn fuel _ es (connect-IsOn (world 0) new_client ((λ no_tls. refl), refl))

-- What the callback of the verification lets through.
abbrev pub accepted : List Certificate → Bool
accepted [] = true
accepted (cert ∷ certs) = on_verify_ssl cert && accepted certs

-- Each certificate passed the checks of OpenSSL and fits the host.
abbrev pub IsTrusted : List Certificate → Type 0
IsTrusted [] = Unit {0}
IsTrusted (cert ∷ certs) =
    (cert.preverified ≡ true) × (cert.present ≡ true) × (cert.matches_host ≡ true) × IsTrusted certs

accepted-IsTrusted : (certs : List Certificate) → accepted certs ≡ true → IsTrusted certs
unfolding on_verify_ssl
accepted-IsTrusted [] h = tt
accepted-IsTrusted (cert ∷ certs) h = ground (arith, accepted-IsTrusted certs)

-- Where a handshake under verify_peer with `onVerifySSL` as its callback succeeds only if that accepts
-- each certificate of the chain, as OpenSSL has it, and whatever handshakes do otherwise: a client that is
-- told to use TLS connects only if OpenSSL trusts every certificate and it fits the host.
pub connect-IsTrusted :
    (config : Config) (a : Attempt) (c : Client) (chain : List Certificate)
    → (passes (a.shake true true) ≡ true → accepted chain ≡ true)
    → config.secure_connect ≡ true
    → (connect config a c).0 ≡ true
    → IsTrusted chain
unfolding connect do_secure_connection set_up handshake
connect-IsTrusted config a c chain honest tls up = accepted-IsTrusted chain (honest (ground arith))
