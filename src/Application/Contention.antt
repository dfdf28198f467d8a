-- ===== src/Application/Contention.antt =====
-- advanceNextSyncAt under contention: its loop with `Load` and `CompareAndSwap` as single steps,
-- which any number of callers take in any order.
pub mod Linear
use cloud_secrets.Prelude.{
  ℕ, suc, ◌≡◌, Option, none, some, ltb, eqb, if◌then◌else◌, Result, ok, panic,
}
use cloud_secrets.Application.{advanced}

-- The cell `nextSyncAt`. Each pointer that is stored is newly allocated, so that two stored pointers
-- are the same exactly if they were stored by the same store: the number of stores so far stands
-- for the pointer, and 0 for nil.
pub record Cell : Type 0 where
  pub stores : ℕ
  pub next : Option ℕ

-- Where a caller stands: before `Load`, before `CompareAndSwap` with the loaded pointer and the
-- time that it has computed, or behind the loop with its result.
pub data Phase : Type 0 where
  loading : Phase
  swapping : ℕ → ℕ → Phase
  finished : Result (Option ℕ) → Phase

-- A caller with the time that it came with. For the theorems alone it has the stores that there
-- were when it came, and its failed swaps.
pub record Caller : Type 0 where
  pub now : ℕ
  pub phase : Phase
  pub came : ℕ
  pub failures : ℕ

-- From `Load` to the swap, or to one of the returns before it. The values behind the stored pointers
-- are never written, so that they may be read together with the pointer.
abbrev pub loaded : ℕ → ℕ → Cell → Option ℕ → Phase
loaded interval now cell none = finished (ok none)
loaded interval now cell (some next) =
    if ltb now next
    then finished (ok (some next))
    else if eqb interval 0
    then finished panic
    else swapping cell.stores (advanced interval now next)

-- `CompareAndSwap`, and the return or the next round behind it.
abbrev pub swapped : ℕ → ℕ → Cell → Caller → Cell × Caller
swapped stores next cell c =
    if eqb stores cell.stores
    then (
      record { stores = suc cell.stores; next = some next },
      record c { phase = finished (ok (some next)) },
    )
    else (cell, record c { phase = loading; failures = suc c.failures })

abbrev pub pass_from : ℕ → Cell → Caller → Phase → Cell × Caller
pass_from interval cell c loading =
    (cell, record c { phase = loaded interval c.now cell cell.next })
pass_from interval cell c (swapping stores next) = swapped stores next cell c
pass_from interval cell c (finished r) = (cell, c)

-- The next step of a caller.
unfoldable pub pass : ℕ → Cell → Caller → Cell × Caller
pass interval cell c = pass_from interval cell c c.phase

abbrev pub update : (ℕ → Caller) → ℕ → Caller → ℕ → Caller
update callers i c j = if eqb j i then c else callers j

pub record System : Type 0 where
  pub cell : Cell
  pub callers : ℕ → Caller

-- A caller comes with a time.
abbrev pub entering : ℕ → Cell → Caller
entering now cell = record { now = now; phase = loading; came = cell.stores; failures = 0 }

-- No caller has come yet.
abbrev pub idle : Cell → System
idle cell = record {
  cell = cell;
  callers = λ _. record { now = 0; phase = finished (ok none); came = 0; failures = 0 };
}

abbrev pub step_of : ℕ → ℕ → System → System
step_of interval i sys =
    let (cell, c) = pass interval sys.cell (sys.callers i) in
    record { cell = cell; callers = update sys.callers i c }

-- The steps of all callers, in any order; one that is behind the loop may come again.
pub data Reaches (interval : ℕ) (from : System) : System → Type 0 where
  start : Reaches interval from from
  steps :
      {sys : System}
      → Reaches interval from sys
      → (i : ℕ) → Reaches interval from (step_of interval i sys)
  enters :
      {sys : System}
      → Reaches interval from sys
      → (i now : ℕ) → (r : Result (Option ℕ)) → (sys.callers i).phase ≡ finished r
      → Reaches interval from
          (record sys { callers = update sys.callers i (entering now sys.cell) })
