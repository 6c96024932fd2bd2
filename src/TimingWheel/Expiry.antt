-- ===== src/TimingWheel/Expiry.antt =====
-- How long a cooldown of server/src/timing_wheel.rs lasts.
use reddit_puzzle_system_des.Base.{
  ℕ, zero, suc, ◌-◌, ◌<◌, ltb, Option, some, ◌≡◌, refl, subst, fun_ext, arith, ◌>>=◌,
}
use reddit_puzzle_system_des.Settings.{timing_wheel_ticks, max_connections_per_worker}
use reddit_puzzle_system_des.Cooldown.{CooldownArray, set_cooldown, is_on_cooldown}
use reddit_puzzle_system_des.TimingWheel.{TimingWheel, tick, add_cooldown}
use reddit_puzzle_system_des.TimingWheel.Remaining.{
  Remaining, Represents, tick-Represents, start-Represents, is_on_cooldown-Represents,
}

-- `tick` called `n` times, as the loop of the source's own test does.
pub ticks : ℕ → TimingWheel → CooldownArray → Option (TimingWheel × CooldownArray)
ticks zero w master = some (w, master)
ticks (suc n) w master = tick w master >>= λ s. ticks n s.0 s.1

pub ticks-Represents :
    (n : ℕ) {w : TimingWheel} {master : CooldownArray} {rem : Remaining}
    → Represents w master rem
    → (w' : TimingWheel) × (master' : CooldownArray) × (ticks n w master ≡ some (w', master'))
      × Represents w' master' (λ id. rem id - n)
unfolding ticks
ticks-Represents zero {w} {master} {rem} r =
    (w, master, refl, subst (Represents w master) (fun_ext (λ id. omega arith)) r)
ticks-Represents (suc n) {w} {master} {rem} r =
    let (w₁, m₁, e, r₁) = tick-Represents r in
    let (w₂, m₂, e', r₂) = ticks-Represents n r₁ in
    (w₂, m₂, rw e e', subst (Represents w₂ m₂) (fun_ext (λ id. omega arith)) r₂)

-- A user without cooldown who places a pixel is on cooldown during the next 299 ticks and off it
-- from tick 300 on, whatever the wheel, the bitset and the other users' cooldowns are; none of the
-- calls leaves an array's bounds.
pub cooldown_lasts :
    (n user : ℕ) {w : TimingWheel} {master : CooldownArray} {rem : Remaining}
    → Represents w master rem
    → user < max_connections_per_worker
    → rem user ≡ 0
    → (do
      master₁ ← set_cooldown master user
      w₁ ← add_cooldown w user
      s ← ticks n w₁ master₁
      is_on_cooldown s.1 user)
      ≡ some (ltb n timing_wheel_ticks)
cooldown_lasts n user {rem = rem} r known idle =
    let (m₁, w₁, e, e', r₁) = start-Represents r user known idle in
    let (w₂, m₂, e'', r₂) = ticks-Represents n r₁ in
    rw (e, e', e'', is_on_cooldown-Represents r₂ user known) (ground arith)
