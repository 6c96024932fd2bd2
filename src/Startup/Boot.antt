-- ===== src/Startup/Boot.antt =====
-- `main` of server/src/main.rs with its certificates, over its runs.
use reddit_puzzle_system_des.Base.{
  ℕ, zero, suc, ◌≤◌, Bool-cases, inl, inr, ◌∙◌, true, false, Option, some, List, length, replicate,
  ◌≡◌, ap, refl, arith,
}
use reddit_puzzle_system_des.Outcome.{done, panic}
use reddit_puzzle_system_des.FileSystem.{FileSystem, IsDocumented}
use reddit_puzzle_system_des.Transport.Config.{
  Tls, Config, settings_for, cert_path, key_path, new_config,
}
use reddit_puzzle_system_des.Startup.{System, main}
use reddit_puzzle_system_des.Startup.Certificates.{Pair, create_certificates, new_configs, boot}
use reddit_puzzle_system_des.Startup.Files.{have, Stores, create_certificates_lem}

module _ (fs : FileSystem) (tls : Tls) where
  open fs use {State, exists, read, write}

  -- The crate takes the pair.
  pub record IsTaken (pair : Pair) : Type 0 where
    pub version : tls.version ≡ true
    pub protos : tls.protos ≡ true
    pub chain : tls.cert_chain pair.cert ≡ true
    pub key : tls.priv_key pair.cert pair.key ≡ true

  new_config-settings_for :
      (pair : Pair) (s : State)
      → IsTaken pair
      → Stores fs pair s
      → new_config fs tls s ≡ done (settings_for pair.cert pair.key)
  unfolding new_config
  new_config-settings_for pair s taken stores =
      rw (taken.version, taken.protos, stores.cert, taken.chain, stores.key, taken.key) refl

  refused_config :
      (pair : Pair) (s : State)
      → Stores fs pair s
      → tls.cert_chain pair.cert ≡ true
      → tls.priv_key pair.cert pair.key ≡ false
      → new_config fs tls s ≡ panic
  unfolding new_config
  refused_config pair s stores chain refused = elim (Bool-cases tls.version) [
    | inl known ↦ elim (Bool-cases tls.protos) [
      | inl fit ↦ rw (known, fit, stores.cert, chain, stores.key, refused) refl
      | inr unfit ↦ rw (known, unfit) refl
    ]
    | inr unknown ↦ rw unknown refl
  ]

  new_configs-replicate :
      (n : ℕ) (config : Config) (s : State)
      → new_config fs tls s ≡ done config
      → new_configs fs tls n s ≡ done (replicate n config)
  unfolding new_configs replicate
  new_configs-replicate zero config s e = refl
  new_configs-replicate (suc n) config s e = rw (e, new_configs-replicate n config s e) refl

  new_configs-panic :
      (n : ℕ) (s : State) → 1 ≤ n → new_config fs tls s ≡ panic → new_configs fs tls n s ≡ panic
  unfolding new_configs
  new_configs-panic zero s some_worker e = absurd (omega (arith, some_worker))
  new_configs-panic (suc n) s some_worker e = rw e refl

  module _ {C : Type 0} where
    -- The server runs with these files, and each worker with this pair.
    abbrev pub Serves :
        Pair → State → Option Pair → ℕ → List (List ℕ) → List ℕ → State → System C → Type 0
    Serves pair s generated now_ms args core_ids s' system =
        boot fs tls generated now_ms args core_ids s
        ≡ done (record {
          files = s';
          system = system;
          configs = replicate (length system.workers) (settings_for pair.cert pair.key);
        })

    boot-eq :
        (pair : Pair) (generated : Option Pair) (now_ms : ℕ) (args : List (List ℕ))
        (core_ids : List ℕ) (s s' : State) (system : System C)
        → IsTaken pair
        → Stores fs pair s'
        → create_certificates fs generated s ≡ done (s', true)
        → main now_ms args core_ids ≡ done system
        → Serves pair s generated now_ms args core_ids s' system
    unfolding boot
    boot-eq pair generated now_ms args core_ids s s' system taken stores created started =
        rw
          (
            created,
            started,
            new_configs-replicate (length system.workers) (settings_for pair.cert pair.key) s'
                (new_config-settings_for pair s' taken stores),
          )
          refl

    -- On a file system that keeps what was written, when one of the files is missing, the generated
    -- pair is one that the crate takes, both writes succeed, and the rest of `main`, which finds the
    -- cores and makes the workers, succeeds: the run starts the server that the rest of `main` makes,
    -- every worker with the datagram queues and the pair; and each later run on the files that it
    -- leaves, if the rest of `main` succeeds in it, starts with that same pair and leaves the files as
    -- they are, whatever is generated then.
    pub boot_lem :
        IsDocumented fs
        → (pair : Pair) (now_ms : ℕ) (args : List (List ℕ)) (core_ids : List ℕ) (s : State)
          (system : System C)
        → IsTaken pair
        → have fs s ≡ false
        → (write cert_path pair.cert s).1 ≡ true
        → (write key_path pair.key (write cert_path pair.cert s).0).1 ≡ true
        → main now_ms args core_ids ≡ done system
        → (s' : State) × Serves pair s (some pair) now_ms args core_ids s' system
          × ((generated : Option Pair) (later : ℕ) (args' : List (List ℕ)) (core_ids' : List ℕ)
                (system' : System C)
              → main later args' core_ids' ≡ done system'
              → Serves pair s' generated later args' core_ids' s' system')
    boot_lem d pair now_ms args core_ids s system taken missing first second started =
        let (s', ok, created, renewed) = (create_certificates_lem fs d s).2 missing pair in
        let good = renewed.succeeds first second in
        let stores = renewed.stored good in
        (
          s',
          boot-eq pair (some pair) now_ms args core_ids s s' system taken stores
              (created ∙ ap (λ b. done (s', b)) good) started,
          λ generated later args' core_ids' system' started'.
              boot-eq pair generated later args' core_ids' s' s' system' taken stores
                ((create_certificates_lem fs d s').0 stores.there generated) started',
        )

    -- When both files are there, but the crate does not take what is in them, every run of `main`
    -- that comes to make its workers panics, whatever is generated: the files are never made again.
    pub boot_stuck :
        IsDocumented fs
        → (pair : Pair) (s : State) → Stores fs pair s
        → tls.cert_chain pair.cert ≡ true
        → tls.priv_key pair.cert pair.key ≡ false
        → (generated : Option Pair) (now_ms : ℕ) (args : List (List ℕ)) (core_ids : List ℕ)
          (system : System C)
        → main now_ms args core_ids ≡ done system
        → 1 ≤ length system.workers
        → (create_certificates fs generated s ≡ done (s, true))
          × (boot fs tls {C = C} generated now_ms args core_ids s ≡ panic)
    unfolding boot
    boot_stuck d pair s stores chain refused generated now_ms args core_ids system started
          some_worker =
        let created = (create_certificates_lem fs d s).0 stores.there generated in
        (
          created,
          rw
              (
                created,
                started,
                new_configs-panic (length system.workers) s some_worker
                    (refused_config pair s stores chain refused),
              )
              refl,
        )
