-- ===== src/Client/Tls.antt =====
-- client/src/tls.rs: the configuration of the load generator's connections, as far as the client sets
-- it, and the check of the server's certificate. What the crates do with it is not part of the
-- repository.
use reddit_puzzle_system_des.Base.{ℕ, Bool, true, Option, some, List, [], ◌∷◌}

-- What the client is asked to check; `dns_name` is the name of the server.
pub record Presented : Type 0 where
  pub end_entity : List ℕ
  pub intermediates : List (List ℕ)
  pub dns_name : List ℕ
  pub scts : List (List ℕ)
  pub ocsp_response : List ℕ
  pub now : ℕ

-- `RecklessVerifier`: whether the certificate is taken.
pub verify_server_cert : Presented → Bool
verify_server_cert presented = true

-- `quinn::TransportConfig`; the time is in seconds.
pub record TransportConfig : Type 0 where
  pub max_idle_timeout : Option ℕ
  pub receive_window : ℕ
  pub send_window : ℕ
  pub stream_receive_window : ℕ
  pub max_concurrent_bidi_streams : ℕ
  pub max_concurrent_uni_streams : ℕ
  pub datagram_receive_buffer_size : Option ℕ
  pub datagram_send_buffer_size : ℕ

pub record ClientConfig : Type 0 where
  pub verifier : Presented → Bool
  pub alpn_protocols : List (List ℕ)
  pub transport_config : TransportConfig

-- `b"h3"`
unfoldable pub build_optimized_config : ClientConfig
unfolding verify_server_cert
build_optimized_config = record {
  verifier = verify_server_cert;
  alpn_protocols = (104 ∷ 51 ∷ []) ∷ [];
  transport_config = record {
    max_idle_timeout = some 60;
    receive_window = 8_192;
    send_window = 4_096;
    stream_receive_window = 0;
    max_concurrent_bidi_streams = 0;
    max_concurrent_uni_streams = 0;
    datagram_receive_buffer_size = some 8_192;
    datagram_send_buffer_size = 1_024;
  };
}
