-- ===== src/Application/Schedule.antt =====
-- The next scheduled run, and what a run leaves behind.
use native.Mathlib.Nat.{mod-add-div', mod-lt, mod-eq_of_lt}
use cloud_secrets.Prelude.{ℕ, ◌+◌, ◌-◌, ◌*◌, ◌/◌, ◌%◌, ◌^◌, ◌≤◌, ◌<◌, ◌≡◌, refl, some, arith, ok}
use cloud_secrets.Prelude.Time.{add}
use cloud_secrets.Application.{advance_next_sync_at, advanced, since}

-- A time is the next one of a schedule: it is ahead by at most one interval, and whole intervals
-- behind the time that it replaces.
pub record IsNext (interval now next next' : ℕ) : Type 0 where
  pub ahead : now < next'
  pub soon : next' ≤ now + interval
  pub intervals : ℕ
  pub on_schedule : next' ≡ next + intervals * interval

-- Whole intervals up to a distance, and one more.
record IsPast (interval distance steps : ℕ) : Type 0 where
  pub reaches : distance < steps * interval
  pub exact : steps * interval ≤ distance + interval

steps-IsPast :
    (interval distance : ℕ) → 0 < interval → IsPast interval distance (distance / interval + 1)
steps-IsPast interval distance positive =
    let whole = mod-add-div' distance interval in
    let part = mod-lt distance positive in
    let product : (distance / interval + 1) * interval ≡ distance / interval * interval + interval =
      omega arith in
    record { reaches = omega arith; exact = omega arith }

since_short : (now next : ℕ) → now - next < 2 ^ 63 → since now next ≡ now - next
since_short now next short = ground arith

add_forward : (t d : ℕ) → d < 2 ^ 63 → add t (d % 2 ^ 64) ≡ t + d
add_forward t d short = rw (mod-eq_of_lt {n = d} {m = 2 ^ 64} (omega arith)) (ground arith)

advanced_lem :
    (interval now next : ℕ)
    → IsPast interval (now - next) ((now - next) / interval + 1)
    → now - next + interval < 2 ^ 63
    → advanced interval now next ≡ next + ((now - next) / interval + 1) * interval
advanced_lem interval now next past short =
    rw (since_short now next (omega arith)) (add_forward next _ (omega (arith, past.exact)))

-- A time that has passed is advanced to the next one of its schedule, if the time that has been
-- missed and one interval are together less than the longest duration.
pub advance-IsNext :
    (interval now next : ℕ)
    → 0 < interval
    → next ≤ now
    → now - next + interval < 2 ^ 63
    → (next' : ℕ) × (advance_next_sync_at interval now (some next) ≡ ok (some next'))
      × IsNext interval now next next'
unfolding advance_next_sync_at
advance-IsNext interval now next positive passed short =
    let steps : ℕ = (now - next) / interval + 1 in
    let past : IsPast interval (now - next) ((now - next) / interval + 1) =
      steps-IsPast interval (now - next) positive in
    (
      advanced interval now next,
      ground arith,
      rw (advanced_lem interval now next past short) (record {
        ahead = omega (arith, past.reaches);
        soon = omega (arith, past.exact);
        intervals = (now - next) / interval + 1;
        on_schedule = refl;
      }),
    )
