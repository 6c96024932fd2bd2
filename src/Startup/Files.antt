-- ===== src/Startup/Files.antt =====
-- What the certificates of server/src/main.rs come to, over runs of `main`.
use reddit_puzzle_system_des.Base.{
  ℕ, ◌&&◌, Bool, Bool-cases, true, false, inl, inr, Option, none, some, List, ◌≡◌, ◌≢◌, ◌∙◌, refl,
  sym, arith,
}
use reddit_puzzle_system_des.Outcome.{done, panic}
use reddit_puzzle_system_des.FileSystem.{FileSystem, IsDocumented}
use reddit_puzzle_system_des.Transport.Config.{cert_path, key_path}
use reddit_puzzle_system_des.Startup.Certificates.{Pair, create_certificates}

cert-ne-key : cert_path ≢ key_path
cert-ne-key e = ground (arith, e)

module _ (fs : FileSystem) where
  open fs use {State, exists, read, write}

  -- Both files are there.
  abbrev pub have : State → Bool
  have s = exists cert_path s && exists key_path s

  -- The file keeps its bytes.
  abbrev pub Keeps : List ℕ → State → State → Type 0
  Keeps path s s' = (exists path s' ≡ exists path s) × (read path s' ≡ read path s)

  -- The files have this pair.
  pub record Stores (pair : Pair) (s : State) : Type 0 where
    pub there : have s ≡ true
    pub cert : read cert_path s ≡ some pair.cert
    pub key : read key_path s ≡ some pair.key

  pub both_written :
      IsDocumented fs
      → (pair : Pair) (s : State) → (write cert_path pair.cert s).1 ≡ true
      → (write key_path pair.key (write cert_path pair.cert s).0).1 ≡ true
      → Stores pair (write key_path pair.key (write cert_path pair.cert s).0).0
  both_written d pair s first second =
      let s₁ = (write cert_path pair.cert s).0 in
      let apart : key_path ≢ cert_path = λ e. cert-ne-key (sym e) in
      record {
        there =
            rw
              (
                d.other_exists key_path cert_path pair.key s₁ apart,
                d.there cert_path pair.cert s first,
              )
              (d.there key_path pair.key s₁ second);
        cert =
            d.other_read key_path cert_path pair.key s₁ apart
            ∙ d.stored cert_path pair.cert s first;
        key = d.stored key_path pair.key s₁ second;
      }

  -- What a call that makes a new pair comes to.
  pub record Renewed (pair : Pair) (s s' : State) (ok : Bool) : Type 0 where
    pub stored : ok ≡ true → Stores pair s'
    pub others : (path : List ℕ) → cert_path ≢ path → key_path ≢ path → Keeps path s s'
    pub succeeds :
        (write cert_path pair.cert s).1 ≡ true
        → (write key_path pair.key (write cert_path pair.cert s).0).1 ≡ true
        → ok ≡ true

  renew-Renewed :
      IsDocumented fs
      → (pair : Pair) (s : State) → have s ≡ false
      → (s' : State) × (ok : Bool) × (create_certificates fs (some pair) s ≡ done (s', ok))
        × Renewed pair s s' ok
  unfolding create_certificates
  renew-Renewed d pair s missing =
      let s₁ = (write cert_path pair.cert s).0 in
      elim (Bool-cases (write cert_path pair.cert s).1) [
        | inl first ↦ (
          (write key_path pair.key s₁).0,
          (write key_path pair.key s₁).1,
          rw (missing, first) refl,
          record {
            stored = both_written d pair s first;
            others = λ path no_cert no_key. (
              d.other_exists key_path path pair.key s₁ no_key
                  ∙ d.other_exists cert_path path pair.cert s no_cert,
              d.other_read key_path path pair.key s₁ no_key
                  ∙ d.other_read cert_path path pair.cert s no_cert,
            );
            succeeds = λ _ second. second;
          },
        )
        | inr failed ↦ (
          s₁,
          false,
          rw (missing, failed) refl,
          record {
            stored = λ e. cc;
            others = λ path no_cert no_key. (
              d.other_exists cert_path path pair.cert s no_cert,
              d.other_read cert_path path pair.cert s no_cert,
            );
            succeeds = λ first _. cc;
          },
        )
      ]

  -- On a file system that keeps what was written: if both files are there, nothing is generated or
  -- written. Otherwise a failure of the generator is a panic, and a generated pair is written: `Ok` means
  -- that both files are there with the bytes of that one pair, two writes that succeed give `Ok`,
  -- and no other file changes, also when a write fails.
  pub create_certificates_lem :
      IsDocumented fs
      → (s : State)
      → (have s ≡ true
          → (generated : Option Pair) → create_certificates fs generated s ≡ done (s, true))
        × (have s ≡ false → create_certificates fs none s ≡ panic)
        × (have s ≡ false
            → (pair : Pair)
            → (s' : State) × (ok : Bool) × (create_certificates fs (some pair) s ≡ done (s', ok))
              × Renewed pair s s' ok)
  unfolding create_certificates
  create_certificates_lem d s = (
    (λ there generated. rw there refl),
    (λ missing. rw missing refl),
    (λ missing pair. renew-Renewed d pair s missing),
  )
