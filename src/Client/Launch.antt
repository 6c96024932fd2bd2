-- ===== src/Client/Launch.antt =====
-- `main` of client/src/main.rs, and how a user finds the server.
use reddit_puzzle_system_des.Base.{
  ℕ, zero, suc, ◌+◌, ◌-◌, ◌%◌, ◌==◌, if◌then◌else◌, Bool, true, false, some, List, [], ◌∷◌, ◌++◌,
  length, length-replicate, replicate, get_elem?, get_elem?-eq-get_or, get_or-replicate, All, ◌≡◌,
  ◌≢◌, ◌∙◌, ap, refl, arith,
}
use reddit_puzzle_system_des.LoadMetrics.{LoadMetrics}
use reddit_puzzle_system_des.LoadMetrics
use reddit_puzzle_system_des.Client.{Args, User, num_endpoints, spawn_users}
use reddit_puzzle_system_des.Client.Tls.{ClientConfig, build_optimized_config}

-- `str::starts_with`
pub starts_with : List ℕ → List ℕ → Bool
starts_with [] text = true
starts_with (p ∷ pattern) [] = false
starts_with (p ∷ pattern) (c ∷ text) =
    let rest = starts_with pattern text in if p == c then rest else false

-- `str::replace` of a pattern by nothing; `skip` bytes of an occurrence are still to be left out.
pub replace : List ℕ → ℕ → List ℕ → List ℕ
unfolding starts_with
replace pattern skip [] = []
replace pattern (suc skip) (c ∷ text) = replace pattern skip text
replace pattern zero (c ∷ text) =
    let found = replace pattern (length pattern - 1) text in
    let kept = replace pattern zero text in
    if starts_with pattern (c ∷ text) then found else c ∷ kept

-- "https://" and "http://"
abbrev pub https : List ℕ
https = 104 ∷ 116 ∷ 116 ∷ 112 ∷ 115 ∷ 58 ∷ 47 ∷ 47 ∷ []

abbrev pub http : List ℕ
http = 104 ∷ 116 ∷ 116 ∷ 112 ∷ 58 ∷ 47 ∷ 47 ∷ []

pub target_cleaned : List ℕ → List ℕ
unfolding replace
target_cleaned target = replace http 0 (replace https 0 target)

-- No `h` in it.
abbrev pub IsPlain : List ℕ → Type 0
IsPlain text = All (λ c. c ≢ 104) text

replace-plain : (pattern text : List ℕ) → IsPlain text → replace (104 ∷ pattern) 0 text ≡ text
unfolding replace starts_with
replace-plain pattern [] plain = refl
replace-plain pattern (c ∷ text) (first, plain) =
    let other : (104 == c) ≡ false = ground (arith, first) in
    rw (other, replace-plain pattern text plain) refl

-- A target without the letter `h`, such as an address and a port, is the same with either scheme in front
-- of it and without one.
pub target_cleaned_lem :
    (text : List ℕ)
    → IsPlain text
    → (target_cleaned text ≡ text)
      × (target_cleaned (https ++ text) ≡ text)
      × (target_cleaned (http ++ text) ≡ text)
unfolding target_cleaned replace starts_with
target_cleaned_lem text plain =
    let without_http = replace-plain (116 ∷ 116 ∷ 112 ∷ 58 ∷ 47 ∷ 47 ∷ []) text plain in
    let without_https = replace-plain (116 ∷ 116 ∷ 112 ∷ 115 ∷ 58 ∷ 47 ∷ 47 ∷ []) text plain in
    (
      ap (replace http 0) without_https ∙ without_http,
      ap (replace http 0) without_https ∙ without_http,
      ap (λ t. replace http 0 (http ++ t)) without_https ∙ without_http,
    )

-- What the load generator starts with.
pub record LoadGenerator : Type 0 where
  pub endpoints : List ClientConfig
  pub metrics : LoadMetrics
  pub users : List User

module _ (gen_range : ℕ → ℕ → ℕ → ℕ) (args : Args) (rolls : ℕ → ℕ) where
  pub client_main : LoadGenerator
  client_main = record {
    endpoints = replicate num_endpoints build_optimized_config;
    metrics = LoadMetrics.new;
    users = spawn_users gen_range args rolls 0 args.clients;
  }

  -- The endpoint that a user takes out of the pool is there.
  abbrev HasEndpoint : List ClientConfig → User → Type 0
  HasEndpoint endpoints user = get_elem? endpoints user.endpoint ≡ some build_optimized_config

  spawn_users-HasEndpoint :
      (i rest : ℕ)
      → All
          (HasEndpoint (replicate num_endpoints build_optimized_config))
          (spawn_users gen_range args rolls i rest)
  unfolding spawn_users
  spawn_users-HasEndpoint i zero = tt
  spawn_users-HasEndpoint i (suc rest) = (
    get_elem?-eq-get_or (replicate num_endpoints build_optimized_config) (i % num_endpoints)
          build_optimized_config
          (omega (arith, length-replicate num_endpoints build_optimized_config))
        ∙ ap some (get_or-replicate num_endpoints (i % num_endpoints) build_optimized_config),
    spawn_users-HasEndpoint (i + 1) rest,
  )

  -- Every user of the load generator takes an endpoint that is there and configured.
  pub client_main-HasEndpoint : All (HasEndpoint client_main.endpoints) client_main.users
  unfolding client_main
  client_main-HasEndpoint = spawn_users-HasEndpoint 0 args.clients
