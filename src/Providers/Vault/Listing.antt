-- ===== src/Providers/Vault/Listing.antt =====
-- What a pass of the scan of `ListSecrets` adds to its queue.
pub mod Ends
use mathlib.Core.Path.{subst}
use cloud_secrets.Prelude.{
  ℕ, suc, ◌+◌, ◌≤◌, ◌≡◌, refl, Bool, true, false, not, ◌||◌, List, [], ◌∷◌, ◌++◌, arith,
  if◌then◌else◌, length, length-append, any, All, All-append, ok, Option, some, Text, ◌==◌,
}
use cloud_secrets.Prelude.Exec.{run_ok, Exec, pure, lift, ◌>>=◌, context, run_ok}
use cloud_secrets.Prelude.Dict
use cloud_secrets.Prelude.Dict.{TextSet, Dict}
use cloud_secrets.Strings.Search.{has_suffix, trim_suffix}
use cloud_secrets.Providers.Contracts.{Secret}
use cloud_secrets.Providers.Vault.{
  VaultClient, Scan, join_path, scan_keys, add_keys, scan_path, scan_all,
}

abbrev pub member : Text → List Text → Bool
member t ts = any (λ u. u == t) ts

-- A folder among the keys of a path is one of the known paths.
abbrev pub KnownFolders : List Text → Text → List Text → Type 0
KnownFolders known path keys =
    All
      (λ key.
        not (has_suffix b'/' key) || member (join_path path (trim_suffix b'/' key)) known ≡ true)
      keys

-- Vault has finitely many folders, the root among them, and no listing is longer than a bound.
pub record IsFinite {W : Type 0} (client : VaultClient W) (known : List Text) (bound : ℕ)
    : Type 0 where
  pub root : member [] known ≡ true
  pub folders :
      (path : Text) (w : W) (keys : List Text)
      → (client.list_keys path w).0 ≡ ok keys
      → KnownFolders known path keys
  pub short :
      (path : Text) (w : W) (keys : List Text)
      → (client.list_keys path w).0 ≡ ok keys
      → length keys ≤ bound

-- What the paths that are not seen yet may still add to the queue, themselves included.
abbrev pub budget : ℕ → List Text → TextSet → ℕ
budget bound [] seen = 0
budget bound (path ∷ paths) seen =
    (if Dict.has path seen then 0 else suc bound) + budget bound paths seen

budget-insert_le :
    (bound : ℕ) (paths : List Text) (path : Text) (seen : TextSet)
    → budget bound paths (Dict.insert path tt seen) ≤ budget bound paths seen
budget-insert_le bound [] path seen = omega arith
budget-insert_le bound (other ∷ paths) path seen =
    ground (arith, budget-insert_le bound paths path seen, Dict.has-insert other path tt seen)

pub budget-insert_lt :
    (bound : ℕ) (paths : List Text) (path : Text) (seen : TextSet)
    → Dict.has path seen ≡ false
    → member path paths ≡ true
    → budget bound paths (Dict.insert path tt seen) + suc bound ≤ budget bound paths seen
budget-insert_lt bound [] path seen fresh h = cc
budget-insert_lt bound (other ∷ paths) path seen fresh h = ground (
  arith,
  budget-insert_le bound paths path seen,
  budget-insert_lt bound paths path seen,
  Dict.has-insert other path tt seen,
)

-- The queue holds known paths.
abbrev pub IsKnown : List Text → List Text → Type 0
IsKnown known paths = All (λ path. member path known ≡ true) paths

-- How the keys of one path change the scan.
pub record IsGrown (known : List Text) (added : ℕ) (before after : Scan) : Type 0 where
  pub seen : after.seen_paths ≡ before.seen_paths
  pub queue : length after.paths_to_scan ≤ length before.paths_to_scan + added
  pub all_known : IsKnown known after.paths_to_scan

queue_one :
    (known queue : List Text) (path : Text)
    → IsKnown known queue
    → member path known ≡ true
    → IsKnown known (queue ++ path ∷ [])
queue_one known queue path all one = All-append _ queue (path ∷ []) all (one, tt)

module _ {W : Type 0} (client : VaultClient W) (known : List Text) where
  abbrev folder_step : Text → Text → List Text → Scan → Exec W Scan
  folder_step path key keys scan = scan_keys client path keys (record scan {
    paths_to_scan = scan.paths_to_scan ++ join_path path (trim_suffix b'/' key) ∷ [];
  })

  abbrev document_step : Text → Text → List Text → Scan → Exec W Scan
  document_step path key keys scan =
      context "read secret" (client.get_secret (join_path path key) []) >>= λ secret.
      lift (add_keys (join_path path key) secret.version_id secret.keys scan.secrets) >>= λ secrets.
      scan_keys client path keys (record scan { secrets = secrets })

  abbrev Grows : List Text → Text → Type 0
  Grows keys path =
      (scan after : Scan) (w : W)
      → IsKnown known scan.paths_to_scan
      → (scan_keys client path keys scan w).0 ≡ ok after
      → IsGrown known (length keys) scan after

  key-IsGrown :
      (path key : Text) (keys : List Text) (scan after : Scan) (w : W) (b : Bool)
      → (not b || member (join_path path (trim_suffix b'/' key)) known) ≡ true
      → IsKnown known scan.paths_to_scan
      → Grows keys path
      → ((if b then folder_step path key keys scan else document_step path key keys scan) w).0
        ≡ ok after
      → IsGrown known (suc (length keys)) scan after
  key-IsGrown path key keys scan after w true folder queue ih h =
      let grown =
        ih
          (record scan {
            paths_to_scan = scan.paths_to_scan ++ join_path path (trim_suffix b'/' key) ∷ [];
          })
          after w (queue_one known scan.paths_to_scan _ queue folder) h in
      record {
        seen = grown.seen;
        queue = omega (
          arith,
          grown.queue,
          length-append scan.paths_to_scan (join_path path (trim_suffix b'/' key) ∷ []),
        );
        all_known = grown.all_known;
      }
  key-IsGrown path key keys scan after w false folder queue ih h =
      let (secret, read, rest) = run_ok _ _ w after h in
      let (secrets, added, later) = run_ok _ _ _ after rest in
      let grown = ih (record scan { secrets = secrets }) after _ queue later in
      record { seen = grown.seen; queue = omega (arith, grown.queue); all_known = grown.all_known }

  pub scan_keys-IsGrown :
      (path : Text) (keys : List Text) → KnownFolders known path keys → Grows keys path
  unfolding scan_keys pure
  scan_keys-IsGrown path [] folders scan after w queue h =
      let same : scan ≡ after = ground arith in
      subst (IsGrown known 0 scan) same
        (record { seen = refl; queue = omega arith; all_known = queue })
  scan_keys-IsGrown path (key ∷ keys) folders scan after w queue h =
      key-IsGrown path key keys scan after w (has_suffix b'/' key) folders.0 queue
        (scan_keys-IsGrown path keys folders.1) h

module _ {W : Type 0} (client : VaultClient W) where
  -- What the loop of the scan does with its queue.
  abbrev pub next_pass : ℕ → Scan → List Text → Exec W (Option (Dict Secret))
  next_pass fuel scan [] = pure (some scan.secrets)
  next_pass fuel scan (path ∷ rest) =
      scan_path client path (record scan { paths_to_scan = rest }) >>= scan_all client fuel

  pub next_pass_elim :
      (fuel : ℕ) (scan : Scan) (queue : List Text)
      → elim queue [
        | [] ↦ pure (some scan.secrets)
        | path ∷ rest ↦
            scan_path client path (record scan { paths_to_scan = rest }) >>= scan_all client fuel
      ]
        ≡ next_pass fuel scan queue
  next_pass_elim fuel scan [] = refl
  next_pass_elim fuel scan (path ∷ rest) = refl
