-- ===== src/Tests/Boot.antt =====
-- A file system in memory, whose disk takes files of at most three bytes.
use reddit_puzzle_system_des.Base.{
  ℕ, leb, Bool, Bool-cases, true, false, inl, inr, Option, none, some, List, [], ◌∷◌, length, take,
  take_all, ◌≤◌, ◌≡◌, ◌≢◌, ◌∙◌, ap, refl, arith,
}
use reddit_puzzle_system_des.HashMap.{
  same_bytes, same_bytes_eq, get, insert, get-insert, get-insert_ne,
}
use reddit_puzzle_system_des.Outcome.{done, panic}
use reddit_puzzle_system_des.FileSystem.{FileSystem, IsDocumented}
use reddit_puzzle_system_des.Transport.Config.{Tls, cert_path, key_path}
use reddit_puzzle_system_des.Startup.{make_workers, System, main}
use reddit_puzzle_system_des.Startup.Certificates.{Pair, create_certificates, boot}
use reddit_puzzle_system_des.Startup.Files.{have, Renewed, Stores, create_certificates_lem}
use reddit_puzzle_system_des.Startup.Boot.{IsTaken, Serves, boot_lem, boot_stuck}
use reddit_puzzle_system_des.Tests.Server.{made, main-made}

abbrev found : Option (List ℕ) → Bool
found none = false
found (some bytes) = true

-- A file that does not fit is there, with the bytes that fit.
abbrev disk : FileSystem
disk = record {
  State = List (List ℕ × List ℕ);
  exists = λ path s. found (get path s);
  read = λ path s. get path s;
  write = λ path bytes s. (insert path (take 3 bytes) s, leb (length bytes) 3);
}

differ : (path other : List ℕ) → path ≢ other → same_bytes path other ≡ false
differ path other ne = elim (Bool-cases (same_bytes path other)) [
  | inl same ↦ absurd (ne (same_bytes_eq path other same))
  | inr apart ↦ apart
]

fits : (bytes : List ℕ) → leb (length bytes) 3 ≡ true → take 3 bytes ≡ bytes
fits bytes e = take_all 3 bytes (ground (arith, e))

disk-IsDocumented : IsDocumented disk
disk-IsDocumented = record {
  there = λ path bytes s ok. ap found (get-insert path (take 3 bytes) s);
  stored = λ path bytes s ok. get-insert path (take 3 bytes) s ∙ ap some (fits bytes ok);
  other_exists = λ path other bytes s ne.
      ap found (get-insert_ne path other (take 3 bytes) s (differ path other ne));
  other_read =
      λ path other bytes s ne. get-insert_ne path other (take 3 bytes) s (differ path other ne);
}

-- A chain and its key are the same bytes.
abbrev tls : Tls
tls = record {
  version = true;
  protos = true;
  cert_chain = λ chain. true;
  priv_key = λ chain key. same_bytes chain key;
}

abbrev short : Pair
short = record { cert = 7 ∷ 8 ∷ []; key = 7 ∷ 8 ∷ [] }

empty_disk : have disk [] ≡ false
unfolding get
empty_disk = refl

short-IsTaken : IsTaken disk tls short
unfolding same_bytes
short-IsTaken = record { version = refl; protos = refl; chain = refl; key = refl }

boot_lem_example :
    (s' : List (List ℕ × List ℕ)) × Serves disk tls short []
      (some short)
      77
      ((115 ∷ []) ∷ [])
      (10 ∷ 11 ∷ 12 ∷ [])
      s'
      made
    × ((generated : Option Pair) (later : ℕ) (args' : List (List ℕ)) (core_ids' : List ℕ)
          (system' : System (Option (List ℕ)))
        → main later args' core_ids' ≡ done system'
        → Serves disk tls short s' generated later args' core_ids' s' system')
boot_lem_example =
    boot_lem disk tls disk-IsDocumented short 77 ((115 ∷ []) ∷ []) (10 ∷ 11 ∷ 12 ∷ []) [] made
      short-IsTaken empty_disk refl refl main-made

-- The key does not fit: the call fails, and leaves a part of the key.
abbrev cut : Pair
cut = record { cert = 7 ∷ 8 ∷ []; key = 7 ∷ 8 ∷ 9 ∷ 10 ∷ [] }

abbrev half : List (List ℕ × List ℕ)
half = (cert_path, 7 ∷ 8 ∷ []) ∷ (key_path, 7 ∷ 8 ∷ 9 ∷ []) ∷ []

half_written : create_certificates disk (some cut) [] ≡ done (half, false)
unfolding create_certificates get insert same_bytes
half_written = refl

create_certificates_lem_example :
    (have disk half ≡ true
      → (generated : Option Pair) → create_certificates disk generated half ≡ done (half, true))
    × (have disk half ≡ false → create_certificates disk none half ≡ panic)
    × (have disk half ≡ false
        → (pair : Pair)
        → (s' : List (List ℕ × List ℕ)) × (ok : Bool) × (create_certificates disk (some pair) half
            ≡ done (s', ok))
          × Renewed disk pair half s' ok)
create_certificates_lem_example = create_certificates_lem disk disk-IsDocumented half

half-Stores : Stores disk (record { cert = 7 ∷ 8 ∷ []; key = 7 ∷ 8 ∷ 9 ∷ [] }) half
unfolding get same_bytes
half-Stores = record { there = refl; cert = refl; key = refl }

refused : same_bytes (7 ∷ 8 ∷ []) (7 ∷ 8 ∷ 9 ∷ []) ≡ false
unfolding same_bytes
refused = refl

two_workers : 1 ≤ length made.workers
unfolding make_workers
two_workers = omega arith

boot_stuck_example :
    (create_certificates disk (some short) half ≡ done (half, true))
    × (boot disk tls {C = Option (List ℕ)}
          (some short)
          77
          ((115 ∷ []) ∷ [])
          (10 ∷ 11 ∷ 12 ∷ [])
          half
        ≡ panic)
boot_stuck_example =
    boot_stuck disk tls disk-IsDocumented (record { cert = 7 ∷ 8 ∷ []; key = 7 ∷ 8 ∷ 9 ∷ [] }) half
      half-Stores refl refused (some short) 77 ((115 ∷ []) ∷ []) (10 ∷ 11 ∷ 12 ∷ []) made main-made
      two_workers
