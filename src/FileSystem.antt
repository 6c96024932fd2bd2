-- ===== src/FileSystem.antt =====
-- The file system and the certificates' crate as server/src/main.rs and server/src/transport.rs use
-- them. They are not part of the repository: parameters of the models.
use reddit_puzzle_system_des.Base.{ℕ, Bool, true, Option, some, List, ◌≡◌, ◌≢◌}

pub record FileSystem : Type 1 where
  pub State : Type 0
  -- `Path::exists`
  pub exists : List ℕ → State → Bool
  -- what a reader of the path gets
  pub read : List ℕ → State → Option (List ℕ)
  -- `fs::write`: the path, the bytes; and whether it succeeded
  pub write : List ℕ → List ℕ → State → State × Bool

module _ (fs : FileSystem) where
  open fs use {State, exists, read, write}

  -- A write that succeeds leaves a file with these bytes, and no write changes the other files.
  pub record IsDocumented : Type 0 where
    pub there :
        (path bytes : List ℕ) (s : State)
        → (write path bytes s).1 ≡ true
        → exists path (write path bytes s).0 ≡ true
    pub stored :
        (path bytes : List ℕ) (s : State)
        → (write path bytes s).1 ≡ true
        → read path (write path bytes s).0 ≡ some bytes
    pub other_exists :
        (path other bytes : List ℕ) (s : State)
        → path ≢ other
        → exists other (write path bytes s).0 ≡ exists other s
    pub other_read :
        (path other bytes : List ℕ) (s : State)
        → path ≢ other
        → read other (write path bytes s).0 ≡ read other s
