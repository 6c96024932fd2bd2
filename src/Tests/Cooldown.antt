-- ===== src/Tests/Cooldown.antt =====
-- The cooldown bitset and the timing wheel at small inputs.
use reddit_puzzle_system_des.Base.{some, true, ◌≡◌, refl, arith, ◌>>=◌}
use reddit_puzzle_system_des.Cooldown
use reddit_puzzle_system_des.Cooldown.{CooldownArray, set_cooldown, is_on_cooldown}
use reddit_puzzle_system_des.TimingWheel
use reddit_puzzle_system_des.TimingWheel.{add_cooldown}
use reddit_puzzle_system_des.TimingWheel.Remaining.{new-Represents}
use reddit_puzzle_system_des.TimingWheel.Expiry.{ticks, cooldown_lasts}

-- The source's own test: on cooldown after 299 ticks, off after 300.
cooldown_lasts_example :
    (do
      master₁ ← set_cooldown Cooldown.new 55
      w₁ ← add_cooldown TimingWheel.new 55
      s ← ticks 299 w₁ master₁
      is_on_cooldown s.1 55)
    ≡ some true
cooldown_lasts_example = cooldown_lasts 299 55 new-Represents (omega arith) refl
