-- ===== src/Tls/Examples.antt =====
-- Theorems on records and the handshake at concrete values.
use odyssey_tasks.Prelude.{
  zero, ℕ, ◌≡◌, refl, ◌↔◌, ◌≤◌, ◌<◌, true, false, List, [], ◌∷◌, ◌++◌, length, replicate, arith,
}
use odyssey_tasks.Tls.Record.{
  application_data, plain, fault, new, next_seq_num, encrypt_record, decrypt_record,
}
use odyssey_tasks.Tls.Record.Framing.{decrypt_record-encrypt, decrypt_record-fault}
use odyssey_tasks.Tls.Handshake
use odyssey_tasks.Tls.Handshake.{process_all}
use odyssey_tasks.Tls.Handshake.Completion.{has_server_hello, process_all-same_secrets}

decrypt_record-encrypt_example :
    decrypt_record ((encrypt_record 22 (1 ∷ 2 ∷ 3 ∷ []) new).0 ++ (9 ∷ [])) new ≡ (
      plain (record { type = 22; legacy_record_version = 0x0303; fragment = 1 ∷ 2 ∷ 3 ∷ [] }),
      next_seq_num new,
    )
decrypt_record-encrypt_example =
    decrypt_record-encrypt 22 (1 ∷ 2 ∷ 3 ∷ []) (9 ∷ []) new new (omega arith)

abbrev twenty_bytes : List ℕ
twenty_bytes = replicate 20 0

decrypt_record-fault_example :
    ((decrypt_record (23 ∷ 3 ∷ 3 ∷ 0 ∷ 5 ∷ twenty_bytes) new).0 ≡ fault)
    ↔ ((17 ≤ length (twenty_bytes)) × (application_data ≡ 23) × (zero ≡ 0) × (5 < 15))
decrypt_record-fault_example =
    decrypt_record-fault 23 3 3 0 5 (twenty_bytes) new (omega arith) (omega arith)

process_all-same_secrets_example :
    let done = process_all ((1 ∷ []) ∷ (2 ∷ 7 ∷ []) ∷ []) (Handshake.new true) in
    let done' = process_all ((2 ∷ 8 ∷ 9 ∷ []) ∷ []) (Handshake.new false) in
    (done.complete ≡ true)
    × (done.key_schedule.client_handshake_traffic_secret
        ≡ done'.key_schedule.client_handshake_traffic_secret)
    × (done.key_schedule.server_handshake_traffic_secret
        ≡ done'.key_schedule.server_handshake_traffic_secret)
    × (done.inbound_record ≡ (Handshake.new true).inbound_record)
    × (done.outbound_record ≡ (Handshake.new true).outbound_record)
unfolding has_server_hello
process_all-same_secrets_example =
    process_all-same_secrets ((1 ∷ []) ∷ (2 ∷ 7 ∷ []) ∷ []) ((2 ∷ 8 ∷ 9 ∷ []) ∷ [])
      (Handshake.new true) (Handshake.new false) refl refl
