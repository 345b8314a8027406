-- ===== src/Network/Client/Stale.antt =====
-- A write in flight when the connection is lost: network.cpp with write_pump.cpp.
use luminousminer.Prelude.{
  ◌≡◌, ◌∙◌, refl, Bool, true, false, List, [], ◌∷◌, none, some, arith, if◌then◌else◌,
}
use luminousminer.Prelude.Text.{Text}
use luminousminer.Network.WritePump.{empty_pump, enqueue, on_complete, go_on}
use luminousminer.Network.Client.{
  Attempt, passes, Config, reads, connected, Client, transmit, send, send_all, on_send, started,
  log_in, connect,
}
use luminousminer.Network.Client.Login.{Succeeds, at_login, connect_through}

-- A write is on its way.
abbrev pub is_busy : Client → Bool
is_busy c = elim c.pump [ none ↦ false | some p ↦ p.write_in_flight ]

abbrev pub IsBusy : Client → Type 0
IsBusy c = is_busy c ≡ true

send-IsBusy :
    (t : Text) (c : Client)
    → IsBusy c
    → IsBusy (send t c)
      × ((send t c).effects ≡ c.effects)
      × ((send t c).secure_connection ≡ c.secure_connection)
unfolding send transmit enqueue
send-IsBusy t c h = ground arith

send_all-IsBusy :
    (ts : List Text) (c : Client)
    → IsBusy c
    → IsBusy (send_all ts c)
      × ((send_all ts c).effects ≡ c.effects)
      × ((send_all ts c).secure_connection ≡ c.secure_connection)
unfolding send_all
send_all-IsBusy [] c h = (h, refl, refl)
send_all-IsBusy (t ∷ ts) c h =
    let one = send-IsBusy t c h in
    let rest = send_all-IsBusy ts (send t c) one.0 in (rest.0, rest.1 ∙ one.1, rest.2 ∙ one.2)

on_send-IsBusy :
    (c : Client)
    → IsBusy c
    → ((on_send false c).effects ≡ c.effects) × ((on_send false c).pump ≡ some empty_pump)
unfolding on_send transmit on_complete go_on
on_send-IsBusy c h = ground arith

log_in-IsBusy :
    (a : Attempt) (c : Client)
    → IsBusy c
    → passes a.login ≡ true
    → passes a.listen ≡ true
    → ((log_in a c).0 ≡ true)
      × IsBusy (log_in a c).1
      × ((log_in a c).1.effects ≡ reads c.secure_connection ∷ connected ∷ c.effects)
unfolding log_in
log_in-IsBusy a c h ends listens = ground (arith, send_all-IsBusy a.logins (started c))

-- If a write was in flight when the connection was lost, the connection that `connect` then makes is of
-- no use: all that its login sends waits behind that write, and is dropped with it when its failure is
-- reported, so that nothing of the login is written to the pool.
pub on_send-connect_drops_login :
    (config : Config) (a : Attempt) (c : Client)
    → IsBusy c
    → Succeeds config a
    → ((connect config a c).0 ≡ true)
      × ((on_send false (connect config a c).1).effects
          ≡ reads (if config.secure_connect then true else c.secure_connection)
            ∷ connected
            ∷ c.effects)
      × ((on_send false (connect config a c).1).pump ≡ some empty_pump)
on_send-connect_drops_login config a c h up =
    let k = log_in-IsBusy a (at_login config a c) h up.1 up.2 in
    let s = on_send-IsBusy (log_in a (at_login config a c)).1 k.1 in
    rw (connect_through config a c up.0) (k.0, s.0 ∙ k.2, s.1)
