-- ===== src/Tls/Handshake.antt =====
-- tls_handshake.cpp: the engine.
pub mod Completion
use odyssey_tasks.Prelude.{
  ℕ, Bool, true, false, List, [], ◌∷◌, ◌++◌, replicate, ◌==◌, if◌then◌else◌,
}
use odyssey_tasks.Tls.Record.{RecordLayer}
use odyssey_tasks.Tls.Record
use odyssey_tasks.Tls.Hkdf.{extract, derive_secret}

-- The members of `HandshakeType` that are used.
abbrev pub client_hello : ℕ
client_hello = 1

abbrev pub server_hello : ℕ
server_hello = 2

pub record KeySchedule : Type 0 where
  pub client_early_traffic_secret : List ℕ
  pub client_handshake_traffic_secret : List ℕ
  pub server_handshake_traffic_secret : List ℕ
  pub client_application_traffic_secret : List ℕ
  pub server_application_traffic_secret : List ℕ
  pub exporter_master_secret : List ℕ
  pub resumption_master_secret : List ℕ

no_secrets : KeySchedule
no_secrets = record {
  client_early_traffic_secret = [];
  client_handshake_traffic_secret = [];
  server_handshake_traffic_secret = [];
  client_application_traffic_secret = [];
  server_application_traffic_secret = [];
  exporter_master_secret = [];
  resumption_master_secret = [];
}

pub record HandshakeEngine : Type 0 where
  pub is_server : Bool
  pub complete : Bool
  pub key_schedule : KeySchedule
  pub inbound_record : RecordLayer
  pub outbound_record : RecordLayer
  pub transcript_hash : List ℕ

pub new : Bool → HandshakeEngine
new is_server = record {
  is_server = is_server;
  complete = false;
  key_schedule = no_secrets;
  inbound_record = Record.new;
  outbound_record = Record.new;
  transcript_hash = [];
}

pub create_client_hello : List ℕ
create_client_hello = (client_hello ∷ 0x00 ∷ 0x00 ∷ 0x20 ∷ 0x03 ∷ 0x03 ∷ []) ++ replicate 32 0x42

-- "c hs traffic" and "s hs traffic", as bytes.
abbrev pub traffic_label : ℕ → List ℕ
traffic_label side =
    side ∷ 0x20 ∷ 0x68 ∷ 0x73 ∷ 0x20 ∷ 0x74 ∷ 0x72 ∷ 0x61 ∷ 0x66 ∷ 0x66 ∷ 0x69 ∷ 0x63 ∷ []

pub handshake_secret : List ℕ
handshake_secret = extract (extract [] []) (replicate 32 0x11)

pub process_server_hello : List ℕ → HandshakeEngine → Bool × HandshakeEngine
process_server_hello [] engine = (false, engine)
process_server_hello (b ∷ msg) engine =
    if b == server_hello
    then (
      true,
      record engine {
        key_schedule = record engine.key_schedule {
          client_handshake_traffic_secret = derive_secret handshake_secret (traffic_label 0x63) [];
          server_handshake_traffic_secret = derive_secret handshake_secret (traffic_label 0x73) [];
        };
        complete = true;
      },
    )
    else (false, engine)

pub process_all : List (List ℕ) → HandshakeEngine → HandshakeEngine
process_all [] engine = engine
process_all (msg ∷ msgs) engine = process_all msgs (process_server_hello msg engine).1
