-- ===== src/Transport/Config.antt =====
-- The configuration that `TransportState::new` of server/src/transport.rs makes.
use reddit_puzzle_system_des.Base.{ℕ, if◌then◌else◌, Bool, true, false, List, [], ◌∷◌}
use reddit_puzzle_system_des.Settings.{
  quic_initial_max_data, quic_initial_max_stream_data_bidi_local,
  quic_initial_max_stream_data_bidi_remote, quic_initial_max_stream_data_uni,
  quic_initial_max_streams_bidi, quic_initial_max_streams_uni, quic_dgram_queue_len,
}
use reddit_puzzle_system_des.Outcome.{Outcome, done, panic, ◌>>=◌, need}
use reddit_puzzle_system_des.FileSystem.{FileSystem}

-- Which of its arguments the crate's configuration takes: its own version and protocols, a chain of
-- certificates, and the private key of a chain.
pub record Tls : Type 0 where
  pub version : Bool
  pub protos : Bool
  pub cert_chain : List ℕ → Bool
  pub priv_key : List ℕ → List ℕ → Bool

-- `quiche::Config`, as far as the server sets it.
pub record Config : Type 0 where
  pub initial_max_data : ℕ
  pub initial_max_stream_data_bidi_local : ℕ
  pub initial_max_stream_data_bidi_remote : ℕ
  pub initial_max_stream_data_uni : ℕ
  pub initial_max_streams_bidi : ℕ
  pub initial_max_streams_uni : ℕ
  pub disable_active_migration : Bool
  pub dgram : Bool
  pub dgram_recv_queue_len : ℕ
  pub dgram_send_queue_len : ℕ
  pub chain : List ℕ
  pub key : List ℕ

-- "cert.crt" and "key.key"
abbrev pub cert_path : List ℕ
cert_path = 99 ∷ 101 ∷ 114 ∷ 116 ∷ 46 ∷ 99 ∷ 114 ∷ 116 ∷ []

abbrev pub key_path : List ℕ
key_path = 107 ∷ 101 ∷ 121 ∷ 46 ∷ 107 ∷ 101 ∷ 121 ∷ []

-- `unwrap`
abbrev pub unwrap {ℓ} : {A : Type ℓ} → Bool → A → Outcome A
unwrap true a = done a
unwrap false a = panic

abbrev pub settings_for : List ℕ → List ℕ → Config
settings_for chain key = record {
  initial_max_data = quic_initial_max_data;
  initial_max_stream_data_bidi_local = quic_initial_max_stream_data_bidi_local;
  initial_max_stream_data_bidi_remote = quic_initial_max_stream_data_bidi_remote;
  initial_max_stream_data_uni = quic_initial_max_stream_data_uni;
  initial_max_streams_bidi = quic_initial_max_streams_bidi;
  initial_max_streams_uni = quic_initial_max_streams_uni;
  disable_active_migration = true;
  dgram = true;
  dgram_recv_queue_len = quic_dgram_queue_len;
  dgram_send_queue_len = quic_dgram_queue_len;
  chain = chain;
  key = key;
}

module _ (fs : FileSystem) (tls : Tls) where
  open fs use {State, read}

  unfoldable pub new_config : State → Outcome Config
  new_config s =
      if tls.version
      then (if tls.protos
          then (do
            file ← need (read cert_path s)
            chain ← unwrap (tls.cert_chain file) file
            file' ← need (read key_path s)
            key ← unwrap (tls.priv_key chain file') file'
            done (settings_for chain key))
          else panic)
      else panic
