-- ===== src/Unit/StartLimit.antt =====
-- core/bin/unit/entry/ratelimit.rs: how often a unit may start. An instant is in nanoseconds.
use sysmaster.Base.{
  ℕ, ◌+◌, ◌-◌, ◌/◌, ◌≤◌, Bool, true, false, not, ◌&&◌, ◌≡◌, refl, List, [], ◌∷◌, Option, none, some,
  ltb, if◌then◌else◌, All, length, arith, Bool-cases, inl, inr,
}

pub record RateLimit : Type 0 where
  pub interval : ℕ
  pub burst : ℕ
  pub begin : Option ℕ
  pub nums : ℕ

abbrev pub new_rate_limit : ℕ → ℕ → RateLimit
new_rate_limit interval burst = record {
  interval = interval;
  burst = burst;
  begin = none;
  nums = 0;
}

abbrev pub ratelimit_enabled : RateLimit → Bool
ratelimit_enabled r = ltb 0 r.interval && ltb 0 r.burst

-- `duration_since(begin).as_secs()`, which is 0 if the clock stepped back.
abbrev pub secs_since : ℕ → ℕ → ℕ
secs_since now begin = (now - begin) / 1000000000

abbrev pub is_over : Option ℕ → ℕ → ℕ → Bool
is_over none now interval = true
is_over (some begin) now interval = ltb interval (secs_since now begin)

-- The method at the instant `now`: may the unit start, and the limit after that.
unfoldable pub ratelimit_below : ℕ → RateLimit → Bool × RateLimit
ratelimit_below now r =
    if not (ratelimit_enabled r)
    then (true, r)
    else if is_over r.begin now r.interval
    then (true, record r { begin = some now; nums = 1 })
    else if ltb r.nums r.burst
    then (true, record r { nums = r.nums + 1 })
    else (false, r)

unfoldable pub init_from_config : ℕ → ℕ → RateLimit → RateLimit
init_from_config interval burst r = record r { interval = interval; burst = burst }

abbrev count_if : Bool → ℕ
count_if true = 1
count_if false = 0

-- How many of the calls at these instants say yes, and the limit after them.
unfoldable pub count_below : List ℕ → RateLimit → ℕ × RateLimit
count_below [] r = (0, r)
count_below (now ∷ later) r =
    let (below, r') = ratelimit_below now r in
    let (n, r'') = count_below later r' in (count_if below + n, r'')

abbrev pub min : ℕ → ℕ → ℕ
min a b = if ltb a b then a else b

below_in :
    (now : ℕ) (r : RateLimit) (b : ℕ)
    → ratelimit_enabled r ≡ true
    → r.begin ≡ some b
    → secs_since now b ≤ r.interval
    → ratelimit_below now r
      ≡ (if ltb r.nums r.burst then (true, record r { nums = r.nums + 1 }) else (false, r))
unfolding ratelimit_below
below_in now r b e h w = ground (arith, e)

below_first :
    (now : ℕ) (r : RateLimit)
    → ratelimit_enabled r ≡ true
    → is_over r.begin now r.interval ≡ true
    → ratelimit_below now r ≡ (true, record r { begin = some now; nums = 1 })
unfolding ratelimit_below
below_first now r e h = rw (e, h) refl

-- Of an enabled limit that is not over its burst, and calls that all fall into the interval that is
-- running, as many say yes as are left of the burst, or all if there are fewer.
count_below_lem :
    (ts : List ℕ) (r : RateLimit) (b : ℕ)
    → ratelimit_enabled r ≡ true
    → r.begin ≡ some b
    → r.nums ≤ r.burst
    → All (λ now. secs_since now b ≤ r.interval) ts
    → (count_below ts r).0 ≡ min (length ts) (r.burst - r.nums)
unfolding count_below
count_below_lem [] r b e h le w = ground arith
count_below_lem (now ∷ ts) r b e h le (w, ws) = elim (Bool-cases (ltb r.nums r.burst)) [
  | inl more ↦
      let rec = count_below_lem ts (record r { nums = r.nums + 1 }) b e h (ground arith) ws in
      rw (below_in now r b e h w, more) (ground (arith, rec))
  | inr full ↦
      let rec = count_below_lem ts r b e h le ws in
      rw (below_in now r b e h w, full) (ground (arith, rec))
]

-- Of an enabled limit whose interval is over or never began, a call and any number of calls that
-- follow it within the interval say yes exactly as often as there are calls, but at most `burst`
-- times.
pub count_below_interval :
    (now : ℕ) (ts : List ℕ) (r : RateLimit)
    → ratelimit_enabled r ≡ true
    → is_over r.begin now r.interval ≡ true
    → All (λ t. secs_since t now ≤ r.interval) ts
    → (count_below (now ∷ ts) r).0 ≡ min (length (now ∷ ts)) r.burst
unfolding count_below
count_below_interval now ts r e over w =
    let rec =
      count_below_lem ts (record r { begin = some now; nums = 1 }) now e refl (ground (arith, e))
        w in
    rw (below_first now r e over) (ground (arith, rec, e))
