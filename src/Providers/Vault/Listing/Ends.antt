-- ===== src/Providers/Vault/Listing/Ends.antt =====
-- The scan of `ListSecrets` ends.
use cloud_secrets.Providers.Vault.Listing.{
  IsFinite, IsKnown, next_pass, next_pass_elim, budget, member, scan_keys-IsGrown, budget-insert_lt,
}
use mathlib.Core.Path.{subst}
use cloud_secrets.Prelude.{
  ℕ, zero, suc, ◌+◌, ◌*◌, ◌≤◌, ◌<◌, ◌≡◌, refl, ◌≢◌, Bool, true, false, none, List, [], ◌∷◌, arith,
  if◌then◌else◌, length, ok, Text,
}
use cloud_secrets.Prelude.Exec.{run_ok, Exec, pure, ◌>>=◌, context, run_ok}
use cloud_secrets.Prelude.Dict
use cloud_secrets.Prelude.Dict.{Dict}
use cloud_secrets.Providers.Vault.{VaultClient, Scan, scan_keys, scan_path, scan_all, list_secrets}

-- What a pass leaves to do.
abbrev to_do : ℕ → List Text → Scan → ℕ
to_do bound known scan = budget bound known scan.seen_paths + length scan.paths_to_scan

-- A pass leaves no more to do than there was behind the path that it takes.
record IsShrunk (bound : ℕ) (known : List Text) (before after : Scan) : Type 0 where
  pub less : to_do bound known after ≤ to_do bound known before
  pub all_known : IsKnown known after.paths_to_scan

module _ {W : Type 0} (client : VaultClient W) (known : List Text) (bound : ℕ)
    (finite : IsFinite client known bound) where
  abbrev visit : Text → Scan → Exec W Scan
  visit path scan = context "list keys" (client.list_keys path) >>= λ keys.
      scan_keys client path keys (record scan { seen_paths = Dict.insert path tt scan.seen_paths })

  listed :
      (path : Text) (w : W) (keys : List Text)
      → (context "list keys" (client.list_keys path) w).0 ≡ ok keys
      → (client.list_keys path w).0 ≡ ok keys
  unfolding context
  listed path w keys h = ground arith

  pass-IsShrunk :
      (path : Text) (scan after : Scan) (w : W) (b : Bool)
      → Dict.has path scan.seen_paths ≡ b
      → member path known ≡ true
      → IsKnown known scan.paths_to_scan
      → ((if b then pure scan else visit path scan) w).0 ≡ ok after
      → IsShrunk bound known scan after
  unfolding pure
  pass-IsShrunk path scan after w true seen one queue h =
      let same : scan ≡ after = ground arith in
      subst (IsShrunk bound known scan) same (record { less = omega arith; all_known = queue })
  pass-IsShrunk path scan after w false fresh one queue h =
      let (keys, read, rest) = run_ok _ _ w after h in
      let listing = listed path w keys read in
      let grown =
        scan_keys-IsGrown client known path keys (finite.folders path w keys listing)
          (record scan { seen_paths = Dict.insert path tt scan.seen_paths }) after _ queue rest in
      let spent = budget-insert_lt bound known path scan.seen_paths fresh one in
      let short = finite.short path w keys listing in
      record { less = rw grown.seen (omega (arith, grown.queue)); all_known = grown.all_known }

  scan_path-IsShrunk :
      (path : Text) (scan after : Scan) (w : W)
      → member path known ≡ true
      → IsKnown known scan.paths_to_scan
      → (scan_path client path scan w).0 ≡ ok after
      → IsShrunk bound known scan after
  unfolding scan_path
  scan_path-IsShrunk path scan after w one queue h =
      pass-IsShrunk path scan after w (Dict.has path scan.seen_paths) refl one queue h

  abbrev Ends : ℕ → Type 0
  Ends fuel =
      (scan : Scan) (w : W)
      → IsKnown known scan.paths_to_scan
      → to_do bound known scan < fuel
      → (scan_all client fuel scan w).0 ≢ ok none

  next_pass-Ends :
      (fuel : ℕ) (scan : Scan) (queue : List Text) (w : W)
      → IsKnown known queue
      → budget bound known scan.seen_paths + length queue < suc fuel
      → Ends fuel
      → (next_pass client fuel scan queue w).0 ≢ ok none
  unfolding pure
  next_pass-Ends fuel scan [] w all enough ih h = cc
  next_pass-Ends fuel scan (path ∷ rest) w all enough ih h =
      let (after, passed, later) = run_ok _ _ w none h in
      let shrunk = scan_path-IsShrunk path _ after w all.0 all.1 passed in
      ih after _ shrunk.all_known (omega (arith, shrunk.less)) later

  scan_all-Ends : (fuel : ℕ) → Ends fuel
  unfolding scan_all
  scan_all-Ends zero scan w all enough h = omega arith
  scan_all-Ends (suc fuel) scan w all enough h =
      next_pass-Ends fuel scan scan.paths_to_scan w all enough (scan_all-Ends fuel)
        (subst (λ m. (m w).0 ≡ ok none) (next_pass_elim client fuel scan scan.paths_to_scan) h)

  budget_empty : (paths : List Text) → budget bound paths [] ≡ length paths * suc bound
  unfolding Dict.has Dict.lookup
  budget_empty [] = omega arith
  budget_empty (path ∷ paths) = omega (arith, budget_empty paths)

  -- If Vault has finitely many folders and each of its listings is bounded, the scan ends: with
  -- more passes than one, and for each folder one more than the bound, it never runs out of them,
  -- whatever the calls return.
  pub list_secrets_ends :
      (fuel : ℕ) (w : W)
      → length known * suc bound + 1 < fuel
      → (list_secrets client fuel w).0 ≢ ok none
  unfolding list_secrets
  list_secrets_ends fuel w enough =
      scan_all-Ends fuel _ w (finite.root, tt) (omega (arith, budget_empty known))
