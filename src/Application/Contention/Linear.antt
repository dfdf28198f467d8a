-- ===== src/Application/Contention/Linear.antt =====
-- The loop of advanceNextSyncAt under contention does what the function does at once.
use cloud_secrets.Prelude.{
  ℕ, suc, ◌+◌, ◌≤◌, ◌≡◌, refl, inl, inr, Bool, true, false, Option, none, some, arith, ltb, eqb,
  if◌then◌else◌, Bool-cases, Result, ok, err, panic,
}
use cloud_secrets.Application.{advance_next_sync_at}
use cloud_secrets.Application.Contention.{
  Cell, Phase, loading, swapping, finished, Caller, loaded, swapped, pass_from, pass, update,
  System, entering, idle, Reaches, start, steps, enters,
}

-- What a caller holds is no newer than the cell, and as long as the cell has not been written since
-- it is the outcome of the whole function at the cell's present value.
abbrev HoldsIn : ℕ → Cell → Caller → Phase → Type 0
HoldsIn interval cell c loading = c.came + c.failures ≤ cell.stores
HoldsIn interval cell c (swapping stores next) =
    (c.came + c.failures ≤ stores)
    × (stores ≤ cell.stores)
    × (stores ≡ cell.stores → advance_next_sync_at interval c.now cell.next ≡ ok (some next))
HoldsIn interval cell c (finished r) = c.came + c.failures ≤ cell.stores

abbrev Holds : ℕ → Cell → Caller → Type 0
Holds interval cell c = HoldsIn interval cell c c.phase

loaded-Holds :
    (interval : ℕ) (cell : Cell) (c : Caller) (o : Option ℕ)
    → cell.next ≡ o
    → c.came + c.failures ≤ cell.stores
    → HoldsIn interval cell c (loaded interval c.now cell o)
unfolding advance_next_sync_at
loaded-Holds interval cell c none e h = h
loaded-Holds interval cell c (some next) e h = elim (Bool-cases (ltb c.now next)) [
  | inl ahead ↦ rw ahead h
  | inr passed ↦ rw passed (elim (Bool-cases (eqb interval 0)) [
    | inl zero_interval ↦ rw zero_interval h
    | inr positive ↦ rw positive (h, omega arith, λ _. rw e (rw passed (rw positive)))
  ])
]

-- Of another caller, after the cell was written.
written-Holds :
    (interval : ℕ) (cell : Cell) (next : Option ℕ) (c : Caller) (p : Phase)
    → HoldsIn interval cell c p
    → HoldsIn interval (record { stores = suc cell.stores; next = next }) c p
written-Holds interval cell next c loading h = omega arith
written-Holds interval cell next c (swapping stores n) h =
    (h.0, omega (arith, h.1), λ e. absurd (omega (arith, h.1)))
written-Holds interval cell next c (finished r) h = omega arith

-- What the whole function leaves in the cell.
abbrev pub left_by : Result (Option ℕ) → Option ℕ → Option ℕ
left_by (ok next) old = next
left_by (err e) old = old
left_by panic old = old

-- A caller that a step has brought behind the loop has the outcome of the whole function at the
-- value that the cell had just before, and has left that outcome in the cell; one that is still in
-- the loop has not changed the cell.
abbrev ImplementsIn : ℕ → ℕ → Cell → Cell → Phase → Type 0
ImplementsIn interval now cell cell' (finished r) =
    (advance_next_sync_at interval now cell.next ≡ r) × (cell'.next ≡ left_by r cell.next)
ImplementsIn interval now cell cell' loading = cell' ≡ cell
ImplementsIn interval now cell cell' (swapping stores next) = cell' ≡ cell

abbrev pub Implements : ℕ → ℕ → Cell → Cell × Caller → Type 0
Implements interval now cell r = ImplementsIn interval now cell r.0 r.1.phase

abbrev pub IsBusy : Phase → Type 0
IsBusy loading = Unit {0}
IsBusy (swapping stores next) = Unit {0}
IsBusy (finished r) = ⊥

-- What holds after a step of the caller that has made it, and of another one.
record Passed (interval : ℕ) (cell : Cell) (c : Caller) (r : Cell × Caller) : Type 0 where
  own : Holds interval r.0 r.1
  implements : IsBusy c.phase → Implements interval c.now cell r
  others : (d : Caller) → Holds interval cell d → Holds interval r.0 d

loaded-Implements :
    (interval now : ℕ) (cell : Cell) (o : Option ℕ)
    → cell.next ≡ o
    → ImplementsIn interval now cell cell (loaded interval now cell o)
unfolding advance_next_sync_at
loaded-Implements interval now cell none e = (rw e, e)
loaded-Implements interval now cell (some next) e = elim (Bool-cases (ltb now next)) [
  | inl ahead ↦ rw ahead (rw e (rw ahead), e)
  | inr passed ↦ rw passed (elim (Bool-cases (eqb interval 0)) [
    | inl zero_interval ↦ rw zero_interval (rw e (rw passed (rw zero_interval)), refl)
    | inr positive ↦ rw positive refl
  ])
]

swapped-Passed :
    (interval : ℕ) (cell : Cell) (c : Caller) (stores next : ℕ)
    → c.phase ≡ swapping stores next
    → HoldsIn interval cell c (swapping stores next)
    → Passed interval cell c (swapped stores next cell c)
swapped-Passed interval cell c stores next e h = elim (Bool-cases (eqb stores cell.stores)) [
  | inl same ↦ rw same (record {
    own = omega (arith, h.0, h.1);
    implements = λ _. (h.2 (ground arith), refl);
    others = λ d k. written-Holds interval cell (some next) d d.phase k;
  })
  | inr other ↦
      rw other
        (record { own = ground (arith, h.0, h.1); implements = λ _. refl; others = λ d k. k })
]

pass-Passed :
    (interval : ℕ) (cell : Cell) (c : Caller) (p : Phase)
    → c.phase ≡ p
    → HoldsIn interval cell c p
    → Passed interval cell c (pass_from interval cell c p)
pass-Passed interval cell c loading e h = record {
  own =
      loaded-Holds interval cell (record c { phase = loaded interval c.now cell cell.next })
        cell.next refl h;
  implements = λ _. loaded-Implements interval c.now cell cell.next refl;
  others = λ d k. k;
}
pass-Passed interval cell c (swapping stores next) e h =
    swapped-Passed interval cell c stores next e h
pass-Passed interval cell c (finished r) e h = record {
  own = rw e h;
  implements = λ busy. absurd (rw e at busy);
  others = λ d k. k;
}

AllHold : ℕ → System → Type 0
AllHold interval sys = (i : ℕ) → Holds interval sys.cell (sys.callers i)

update-Holds :
    (interval : ℕ) (cell : Cell) (callers : ℕ → Caller) (i : ℕ) (c : Caller)
    → Holds interval cell c
    → ((j : ℕ) → Holds interval cell (callers j))
    → (j : ℕ) → Holds interval cell (update callers i c j)
update-Holds interval cell callers i c own others j = by_test (eqb j i)
  where
    by_test : (b : Bool) → Holds interval cell (if b then c else callers j)
    by_test true = own
    by_test false = others j

Reaches-Holds :
    (interval : ℕ) (cell : Cell) {sys : System}
    → Reaches interval (idle cell) sys
    → (i : ℕ) → Holds interval sys.cell (sys.callers i)
unfolding pass
Reaches-Holds interval cell start i = omega arith
Reaches-Holds interval cell (steps {sys = sys} r j) i =
    let held = Reaches-Holds interval cell r in
    let passed = pass-Passed interval sys.cell (sys.callers j) _ refl (held j) in
    update-Holds interval _ sys.callers j _ passed.own (λ k. passed.others _ (held k)) i
Reaches-Holds interval cell (enters {sys = sys} r j now result e) i =
    update-Holds interval sys.cell sys.callers j (entering now sys.cell) (omega arith)
      (Reaches-Holds interval cell r) i

-- In whatever order the callers take their steps, a step that brings a caller behind the loop has
-- done what the whole function does at once: its result is that of the function at the value that
-- the cell had just before the step, and the cell has the value that the function leaves. Any other
-- step of a caller in the loop does not change the cell.
pub pass-Implements :
    (interval : ℕ) (cell : Cell) (sys : System) (i : ℕ)
    → Reaches interval (idle cell) sys
    → IsBusy (sys.callers i).phase
    → Implements interval (sys.callers i).now sys.cell (pass interval sys.cell (sys.callers i))
unfolding pass
pass-Implements interval cell sys i r busy =
    let passed =
      pass-Passed interval sys.cell (sys.callers i) _ refl (Reaches-Holds interval cell r i) in
    passed.implements busy

failures_held :
    (interval : ℕ) (cell : Cell) (c : Caller) (p : Phase)
    → HoldsIn interval cell c p
    → c.came + c.failures ≤ cell.stores
failures_held interval cell c loading h = h
failures_held interval cell c (swapping stores next) h = omega (arith, h.0, h.1)
failures_held interval cell c (finished r) h = h

-- A caller does not start over for nothing: in whatever order the callers take their steps, its
-- swaps have failed at most as often as a time was stored since it came.
pub failures-le-stores :
    (interval : ℕ) (cell : Cell) (sys : System) (i : ℕ)
    → Reaches interval (idle cell) sys
    → (sys.callers i).came + (sys.callers i).failures ≤ sys.cell.stores
failures-le-stores interval cell sys i r =
    failures_held interval sys.cell (sys.callers i) _ (Reaches-Holds interval cell r i)
