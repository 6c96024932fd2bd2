-- ===== src/Worker/Admission.antt =====
-- Which pixels a worker of server/src/worker.rs lets through, by the time each user still has to wait.
use reddit_puzzle_system_des.Base.{
  ℕ, ◌+◌, ◌≤◌, ◌<◌, ltb, ◌==◌, if◌then◌else◌, Bool-cases, true, false, inl, inr, some, List, [],
  ◌∷◌, All, ◌≡◌, ◌∙◌, sym, ap, subst, refl, none, arith,
}
use reddit_puzzle_system_des.Settings.{timing_wheel_ticks, max_connections_per_worker}
use reddit_puzzle_system_des.TimingWheel.Remaining.{
  Remaining, Represents, elapse, start, tick-Represents, start-Represents,
  is_on_cooldown-Represents,
}
use reddit_puzzle_system_des.Spsc.Refine.{Holds, offer, poll, push_refines, pop_refines}
use reddit_puzzle_system_des.Master.{PixelWrite}
use reddit_puzzle_system_des.Transport.{PixelDatagram}
use reddit_puzzle_system_des.Worker.{
  Admitter, handle_tick, pixel_write, admit_pixel, admit, Event, packet, turn, collect, handle,
  handle_all,
}

-- The abstract worker: how long each user waits, what the master has still to collect, the last tick.
pub record Quota : Type 0 where
  pub remaining : Remaining
  pub waiting : List PixelWrite
  pub last_tick_sec : ℕ

-- A user without cooldown gets the first pixel of a packet through, if there is room, and waits
-- from then on; the others are dropped.
unfoldable pub allow : Event → Quota → Quota
allow (packet user []) q = q
allow (packet user (p ∷ pixels)) q =
    if q.remaining user == 0
    then record q {
      remaining = start q.remaining user;
      waiting = (offer q.waiting (pixel_write p)).1;
    }
    else q
allow (turn now_sec) q =
    if ltb q.last_tick_sec now_sec
    then record q { remaining = elapse q.remaining; last_tick_sec = now_sec }
    else q
allow collect q = record q { waiting = (poll q.waiting).1 }

unfoldable pub allow_all : List Event → Quota → Quota
unfolding allow
allow_all [] q = q
allow_all (e ∷ es) q = allow_all es (allow e q)

pub record Models (a : Admitter) (q : Quota) : Type 0 where
  pub cooldowns : Represents a.timing_wheel a.cooldown_master q.remaining
  pub queue : Holds a.master_queue q.waiting
  pub clock : a.last_tick_sec ≡ q.last_tick_sec

-- The user ids that the transport gives out.
abbrev pub IsKnown : Event → Type 0
IsKnown (packet user pixels) = user < max_connections_per_worker
IsKnown (turn now_sec) = Unit
IsKnown collect = Unit

abbrev pub Follows : Event → Admitter → Quota → Type 0
Follows e a q = (a' : Admitter) × (handle e a ≡ some a') × Models a' (allow e q)

module _ {a : Admitter} {q : Quota} (m : Models a q) (user : ℕ)
    (known : user < max_connections_per_worker) where
  waiting-eq : (q.remaining user == 0) ≡ false → (p : PixelDatagram) → admit_pixel user p a ≡ some a
  unfolding admit_pixel
  waiting-eq waits p =
      let on : ltb 0 (q.remaining user) ≡ true = ground arith in
      rw (is_on_cooldown-Represents m.cooldowns user known, on) refl

  -- A waiting user's packet changes nothing.
  admit_waiting :
      (q.remaining user == 0) ≡ false → (pixels : List PixelDatagram) → admit user pixels a ≡ some a
  unfolding admit
  admit_waiting waits [] = refl
  admit_waiting waits (p ∷ pixels) = rw (waiting-eq waits p) (admit_waiting waits pixels)

  admit_idle :
      (q.remaining user == 0) ≡ true
      → (p : PixelDatagram)
      → (a' : Admitter) × (admit_pixel user p a ≡ some a')
        × Models a' (record q {
          remaining = start q.remaining user;
          waiting = (offer q.waiting (pixel_write p)).1;
        })
  unfolding admit_pixel
  admit_idle idle p =
      let off : ltb 0 (q.remaining user) ≡ false = ground arith in
      let (master, wheel, e, e', r) = start-Represents m.cooldowns user known (ground arith) in
      (
        _,
        rw (is_on_cooldown-Represents m.cooldowns user known, off, e, e') refl,
        record { cooldowns = r; queue = (push_refines (pixel_write p) m.queue).1; clock = m.clock },
      )

packet-Follows :
    {a : Admitter} {q : Quota} (user : ℕ) (pixels : List PixelDatagram)
    → Models a q
    → user < max_connections_per_worker
    → Follows (packet user pixels) a q
unfolding handle admit allow
packet-Follows {a} user [] m known = (a, refl, m)
packet-Follows {a} {q} user (p ∷ pixels) m known = elim (Bool-cases (q.remaining user == 0)) [
  | inl idle ↦
      let (a', e, m') = admit_idle m user known idle p in
      (a', rw e (admit_waiting m' user known (ground arith) pixels), rw idle m')
  | inr waits ↦ (a, admit_waiting m user known waits (p ∷ pixels), rw waits m)
]

turn-Follows : {a : Admitter} {q : Quota} (now_sec : ℕ) → Models a q → Follows (turn now_sec) a q
unfolding handle handle_tick allow
turn-Follows {a} {q} now_sec m = elim (Bool-cases (ltb q.last_tick_sec now_sec)) [
  | inl due ↦
      let (wheel, master, e, r) = tick-Represents m.cooldowns in
      (
        record a { timing_wheel = wheel; cooldown_master = master; last_tick_sec = now_sec },
        rw (m.clock, due, e) refl,
        rw due (record { cooldowns = r; queue = m.queue; clock = refl }),
      )
  | inr early ↦ (a, rw (m.clock, early) refl, rw early m)
]

collect-Follows : {a : Admitter} {q : Quota} → Models a q → Follows collect a q
unfolding handle allow
collect-Follows {q = q} m = (
  _,
  refl,
  record { cooldowns = m.cooldowns; queue = (pop_refines q.waiting m.queue).1; clock = m.clock },
)

handle-Follows : {a : Admitter} {q : Quota} (e : Event) → Models a q → IsKnown e → Follows e a q
handle-Follows (packet user pixels) m known = packet-Follows user pixels m known
handle-Follows (turn now_sec) m known = turn-Follows now_sec m
handle-Follows collect m known = collect-Follows m

-- The same by the operations' own names.
pub admit_lem :
    {a : Admitter} {q : Quota} (user : ℕ) (pixels : List PixelDatagram)
    → Models a q
    → user < max_connections_per_worker
    → (a' : Admitter) × (admit user pixels a ≡ some a') × Models a' (allow (packet user pixels) q)
unfolding handle
admit_lem user pixels m known = packet-Follows user pixels m known

pub handle_tick_lem :
    {a : Admitter} {q : Quota} (now_sec : ℕ)
    → Models a q
    → (a' : Admitter) × (handle_tick now_sec a ≡ some a') × Models a' (allow (turn now_sec) q)
unfolding handle
handle_tick_lem now_sec m = turn-Follows now_sec m

-- A worker never panics, whatever packets of known users, turns of the clock and collections by the
-- master follow each other: it lets the first pixel of a packet through exactly when its user has no
-- ticks left to wait, a turn with a later second takes one tick off everybody, and the queue holds
-- what the bounded queue of the accepted pixels holds.
pub handle_all_lem :
    (es : List Event) {a : Admitter} {q : Quota}
    → Models a q
    → All IsKnown es
    → (a' : Admitter) × (handle_all es a ≡ some a') × Models a' (allow_all es q)
unfolding handle_all allow_all
handle_all_lem [] {a} m known = (a, refl, m)
handle_all_lem (e ∷ es) m (k, known) =
    let (a₁, eq₁, m₁) = handle-Follows e m k in
    let (a₂, eq₂, m₂) = handle_all_lem es m₁ known in (a₂, rw eq₁ eq₂, m₂)

some-injective : {A : Type 0} {x y : A} → some x ≡ some y → x ≡ y
some-injective {x = x} e = ap (λ o. elim o [ none ↦ x | some z ↦ z ]) e

handle_all-Models :
    (es : List Event) {a a' : Admitter} {q : Quota}
    → Models a q
    → All IsKnown es
    → handle_all es a ≡ some a'
    → Models a' (allow_all es q)
handle_all-Models es {q = q} m known run =
    let (a'', eq, m') = handle_all_lem es m known in
    subst (λ b. Models b (allow_all es q)) (some-injective (sym eq ∙ run)) m'

-- A tick of the remaining time costs a second of the clock.
allow_slow :
    (user : ℕ) (e : Event) (q : Quota)
    → q.remaining user + q.last_tick_sec ≤ (allow e q).remaining user + (allow e q).last_tick_sec
unfolding allow
allow_slow user (packet u []) q = omega arith
allow_slow user (packet u (p ∷ pixels)) q = ground arith
allow_slow user (turn now_sec) q = ground arith
allow_slow user collect q = omega arith

allow_all_slow :
    (user : ℕ) (es : List Event) (q : Quota)
    → q.remaining user + q.last_tick_sec
      ≤ (allow_all es q).remaining user + (allow_all es q).last_tick_sec
unfolding allow_all
allow_all_slow user [] q = omega arith
allow_all_slow user (e ∷ es) q =
    omega (arith, allow_slow user e q, allow_all_slow user es (allow e q))

-- A user without cooldown who gets a pixel through gets no other through, whatever happens meanwhile,
-- as long as the second of the worker's last tick is less than 300 after what it was before that
-- pixel: any further packet changes nothing.
pub one_pixel_per_cooldown :
    {a a' : Admitter} {q : Quota} (user : ℕ) (p : PixelDatagram) (ps : List PixelDatagram)
    (es : List Event) (pixels : List PixelDatagram)
    → Models a q
    → user < max_connections_per_worker
    → All IsKnown es
    → q.remaining user ≡ 0
    → handle_all (packet user (p ∷ ps) ∷ es) a ≡ some a'
    → a'.last_tick_sec < a.last_tick_sec + timing_wheel_ticks
    → handle_all (packet user pixels ∷ []) a' ≡ some a'
unfolding handle_all handle allow_all allow
one_pixel_per_cooldown {a} {a'} {q} user p ps es pixels m known others idle run soon =
    let m' = handle_all-Models (packet user (p ∷ ps) ∷ es) m (known, others) run in
    let q₁ = allow (packet user (p ∷ ps)) q in
    let started : q₁.remaining user ≡ timing_wheel_ticks = ground arith in
    let same_clock : q₁.last_tick_sec ≡ q.last_tick_sec = ground arith in
    let slow = allow_all_slow user es q₁ in
    let waits : ((allow_all es q₁).remaining user == 0) ≡ false =
      ground (arith, m'.clock, m.clock, slow, started, same_clock, soon) in
    rw (admit_waiting m' user known waits pixels) refl
