-- ===== src/Startup/Certificates.antt =====
-- The certificates of server/src/main.rs, and the whole of `main`.
use reddit_puzzle_system_des.Base.{
  ℕ, zero, suc, ◌&&◌, if◌then◌else◌, Bool, true, false, Option, List, [], ◌∷◌, length,
}
use reddit_puzzle_system_des.Outcome.{Outcome, done, ◌>>=◌, need}
use reddit_puzzle_system_des.FileSystem.{FileSystem}
use reddit_puzzle_system_des.Transport.Config.{Tls, Config, cert_path, key_path, unwrap, new_config}
use reddit_puzzle_system_des.Startup.{System, main}

-- The PEM texts of a certificate and of its key.
pub record Pair : Type 0 where
  pub cert : List ℕ
  pub key : List ℕ

module _ (fs : FileSystem) where
  open fs use {State, exists, write}

  -- `generated` is what the crate `rcgen` makes; the result says whether it is `Ok`.
  unfoldable pub create_certificates : Option Pair → State → Outcome (State × Bool)
  create_certificates generated s =
      if exists cert_path s && exists key_path s then done (s, true) else (do
        pair ← need generated
        let wrote = write cert_path pair.cert s
        if wrote.1 then done (write key_path pair.key wrote.0) else done (wrote.0, false))

  module _ (tls : Tls) where
    -- The configurations of that many workers.
    unfoldable pub new_configs : ℕ → State → Outcome (List Config)
    new_configs zero s = done []
    new_configs (suc n) s = do
      config ← new_config fs tls s
      configs ← new_configs n s
      done (config ∷ configs)

    pub record Booted (C : Type 0) : Type 0 where
      pub files : State
      pub system : System C
      pub configs : List Config

    unfoldable pub boot :
        {C : Type 0} → Option Pair → ℕ → List (List ℕ) → List ℕ → State → Outcome (Booted C)
    unfolding create_certificates new_configs
    boot generated now_ms args core_ids s = do
      created ← create_certificates generated s
      files ← unwrap (created.1) (created.0)
      system ← main now_ms args core_ids
      configs ← new_configs (length system.workers) files
      done (record { files = files; system = system; configs = configs })
