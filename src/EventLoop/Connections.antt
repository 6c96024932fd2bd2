-- ===== src/EventLoop/Connections.antt =====
-- The connections of the map of server/src/transport.rs one after the other, as `values_mut` gives
-- them, and put back.
use reddit_puzzle_system_des.Base.{ℕ, Bool-cases, none, List, [], ◌∷◌, ◌≡◌, refl, arith}
use reddit_puzzle_system_des.HashMap.{get, same_bytes}
use reddit_puzzle_system_des.Transport.{Entry}
use reddit_puzzle_system_des.Transport.Ids.{live}

module _ {C : Type 0} where
  pub conns_of : List (List ℕ × Entry C) → List C
  conns_of [] = []
  conns_of ((key, entry) ∷ m) = entry.conn ∷ conns_of m

  pub put_conns : List C → List (List ℕ × Entry C) → List (List ℕ × Entry C)
  put_conns [] m = m
  put_conns (conn ∷ conns) [] = []
  put_conns (conn ∷ conns) ((key, entry) ∷ m) =
      (key, record entry { conn = conn }) ∷ put_conns conns m

  pub live-put_conns :
      (id : ℕ) (conns : List C) (m : List (List ℕ × Entry C))
      → live id (put_conns conns m) ≡ live id m
  unfolding put_conns
  live-put_conns id [] m = refl
  live-put_conns id (conn ∷ conns) [] = refl
  live-put_conns id (conn ∷ conns) ((key, entry) ∷ m) = omega (arith, live-put_conns id conns m)

  pub put_conns-free :
      (j : List ℕ) (conns : List C) (m : List (List ℕ × Entry C))
      → get j m ≡ none
      → get j (put_conns conns m) ≡ none
  unfolding put_conns get
  put_conns-free j [] m free = free
  put_conns-free j (conn ∷ conns) [] free = refl
  put_conns-free j (conn ∷ conns) ((key, entry) ∷ m) free =
      ground (arith, Bool-cases (same_bytes key j), put_conns-free j conns m)
