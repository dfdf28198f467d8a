-- ===== src/Application/Guard.antt =====
-- Synchronizations that overlap: `synchronizing` is one cell that all callers share.
use cloud_secrets.Prelude.{
  ℕ, zero, suc, ◌≡◌, Bool, true, false, Option, none, some, arith, if◌then◌else◌,
}

-- The cell, and the callers between `CompareAndSwap` and the deferred `Store`.
pub record Callers : Type 0 where
  pub synchronizing : Bool
  pub running : ℕ

abbrev pub idle : Callers
idle = record { synchronizing = false; running = 0 }

-- `CompareAndSwap(false, true)` of one more caller, which is turned away if it fails.
unfoldable pub arrive : Callers → Callers
arrive c = if c.synchronizing then c else record { synchronizing = true; running = suc c.running }

-- The deferred `Store(false)` of a caller that runs.
unfoldable pub leave : Callers → Option Callers
leave c = elim c.running [
  | zero ↦ none
  | suc n ↦ some (record { synchronizing = false; running = n })
]

-- The steps of all callers, in any order.
pub data Reaches : Callers → Callers → Type 0 where
  start : {c : Callers} → Reaches c c
  arrives : {c d : Callers} → Reaches c d → Reaches c (arrive d)
  leaves : {c d e : Callers} → Reaches c d → leave d ≡ some e → Reaches c e

-- The number of callers that run is what the cell says.
abbrev pub IsExclusive : Callers → Type 0
IsExclusive c = c.running ≡ (if c.synchronizing then 1 else 0)

-- In whatever order callers arrive and leave, at most one synchronization runs at any time, and the
-- cell is set exactly while it does.
pub Reaches-IsExclusive : {c d : Callers} → IsExclusive c → Reaches c d → IsExclusive d
unfolding arrive leave
Reaches-IsExclusive h start = h
Reaches-IsExclusive h (arrives {d = d} r) =
    let before : IsExclusive d = Reaches-IsExclusive h r in ground arith
Reaches-IsExclusive h (leaves {d = d} r e) =
    let before : IsExclusive d = Reaches-IsExclusive h r in ground arith
