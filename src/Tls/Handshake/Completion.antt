-- ===== src/Tls/Handshake/Completion.antt =====
-- When a handshake completes, and with which secrets.
use odyssey_tasks.Prelude.{
  ℕ, ◌≡◌, refl, Bool, true, false, ◌||◌, List, [], ◌∷◌, ◌==◌, if◌then◌else◌, Bool-cases, inl, inr,
}
use odyssey_tasks.Tls.Hkdf.{derive_secret}
use odyssey_tasks.Tls.Handshake.{
  server_hello, HandshakeEngine, traffic_label, handshake_secret, process_server_hello, process_all,
}

-- Whether a message begins with the type of a server hello.
unfoldable pub has_server_hello : List (List ℕ) → Bool
has_server_hello [] = false
has_server_hello ([] ∷ msgs) = has_server_hello msgs
has_server_hello ((b ∷ msg) ∷ msgs) = b == server_hello || has_server_hello msgs

-- The engine after a server hello.
unfoldable pub completed : HandshakeEngine → HandshakeEngine
completed engine = record engine {
  key_schedule = record engine.key_schedule {
    client_handshake_traffic_secret = derive_secret handshake_secret (traffic_label 0x63) [];
    server_handshake_traffic_secret = derive_secret handshake_secret (traffic_label 0x73) [];
  };
  complete = true;
}

process_all-completed :
    (msgs : List (List ℕ)) (engine : HandshakeEngine)
    → process_all msgs (completed engine) ≡ completed engine
unfolding process_all process_server_hello completed
process_all-completed [] engine = refl
process_all-completed ([] ∷ msgs) engine = process_all-completed msgs engine
process_all-completed ((b ∷ msg) ∷ msgs) engine = elim (Bool-cases (b == server_hello)) [
  | inl hello ↦ rw hello (process_all-completed msgs engine)
  | inr other ↦ rw other (process_all-completed msgs engine)
]

process_all_lem :
    (msgs : List (List ℕ)) (engine : HandshakeEngine)
    → process_all msgs engine ≡ (if has_server_hello msgs then completed engine else engine)
unfolding process_all process_server_hello has_server_hello completed
process_all_lem [] engine = refl
process_all_lem ([] ∷ msgs) engine = process_all_lem msgs engine
process_all_lem ((b ∷ msg) ∷ msgs) engine = elim (Bool-cases (b == server_hello)) [
  | inl hello ↦ rw hello (process_all-completed msgs engine)
  | inr other ↦ rw other (process_all_lem msgs engine)
]

-- Any two handshakes end with the same two traffic secrets, whatever engines they are of and whatever
-- messages they process, as long as each has a message that begins with the type of a server hello.
-- Such a handshake is complete then, and its record layers are what they were before, keys included.
pub process_all-same_secrets :
    (msgs msgs' : List (List ℕ)) (engine engine' : HandshakeEngine)
    → has_server_hello msgs ≡ true
    → has_server_hello msgs' ≡ true
    → let done = process_all msgs engine in
      let done' = process_all msgs' engine' in
      (done.complete ≡ true)
      × (done.key_schedule.client_handshake_traffic_secret
          ≡ done'.key_schedule.client_handshake_traffic_secret)
      × (done.key_schedule.server_handshake_traffic_secret
          ≡ done'.key_schedule.server_handshake_traffic_secret)
      × (done.inbound_record ≡ engine.inbound_record)
      × (done.outbound_record ≡ engine.outbound_record)
unfolding completed
process_all-same_secrets msgs msgs' engine engine' hello hello' =
    rw (process_all_lem msgs engine, process_all_lem msgs' engine', hello, hello')
      (refl, refl, refl, refl, refl)
