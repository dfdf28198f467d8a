-- ===== src/Providers/Vault/Tree/Steps.antt =====
-- The scan of `ListSecrets` as steps on what it has to visit, has visited and has found: one step
-- for each key of a folder, and one pass for each path of the queue.
use cloud_secrets.Providers.Vault.Listing.{next_pass, next_pass_elim}
use cloud_secrets.Prelude.{
  sym, ℕ, zero, suc, ◌≡◌, refl, true, false, Bool-cases, inl, inr, List, [], ◌∷◌, ◌++◌, arith, some,
  ok, Text,
}
use mathlib.Core.Path.{subst}
use cloud_secrets.Prelude.Dict
use cloud_secrets.Prelude.Dict.{Dict}
use cloud_secrets.Prelude.Exec.{pure, lift, context, run_ok}
use cloud_secrets.Strings.Search.{has_suffix}
use cloud_secrets.Providers.Contracts.{Secret}
use cloud_secrets.Providers.Vault.Api.{VaultSecret}
use cloud_secrets.Providers.Vault.{
  VaultClient, Scan, join_path, add_keys, scan_keys, scan_path, scan_all, list_secrets,
}
use cloud_secrets.Providers.Vault.Tree.{Tree, Shows, subfolder}

abbrev pub queued : Text → Text → Scan → Scan
queued path key scan = record scan { paths_to_scan = scan.paths_to_scan ++ subfolder path key ∷ [] }

-- A folder is queued, and the keys of a document are added.
pub data KeyStep (tree : Tree) (path key : Text) (scan : Scan) : Scan → Type 0 where
  key_of_folder : has_suffix b'/' key ≡ true → KeyStep tree path key scan (queued path key scan)
  key_of_document :
      (secrets : Dict Secret)
      → has_suffix b'/' key ≡ false
      → add_keys
          (join_path path key)
          (tree.document (join_path path key)).version_id
          (tree.document (join_path path key)).keys
          scan.secrets
        ≡ ok secrets
      → KeyStep tree path key scan (record scan { secrets = secrets })

pub data KeySteps (tree : Tree) (path : Text) : List Text → Scan → Scan → Type 0 where
  no_keys : {scan : Scan} → KeySteps tree path [] scan scan
  more_keys :
      {key : Text} {keys : List Text} {scan scan' scan'' : Scan}
      → KeyStep tree path key scan scan'
      → KeySteps tree path keys scan' scan''
      → KeySteps tree path (key ∷ keys) scan scan''

abbrev pub visited : Text → List Text → Scan → Scan
visited path rest scan = record scan {
  paths_to_scan = rest;
  seen_paths = Dict.insert path tt scan.seen_paths;
}

-- A path that was seen is left out, and the keys of a new one are gone through.
pub data Passes (tree : Tree) (d : Dict Secret) : Scan → Type 0 where
  nothing_left : {scan : Scan} → scan.paths_to_scan ≡ [] → scan.secrets ≡ d → Passes tree d scan
  pass_over :
      {scan : Scan} (path : Text) (rest : List Text)
      → scan.paths_to_scan ≡ path ∷ rest
      → Dict.has path scan.seen_paths ≡ true
      → Passes tree d (record scan { paths_to_scan = rest })
      → Passes tree d scan
  visit :
      {scan : Scan} (path : Text) (rest : List Text) (scan' : Scan)
      → scan.paths_to_scan ≡ path ∷ rest
      → Dict.has path scan.seen_paths ≡ false
      → KeySteps tree path (tree.folder path) (visited path rest scan) scan'
      → Passes tree d scan'
      → Passes tree d scan

module _ {W : Type 0} {client : VaultClient W} {tree : Tree} (shows : Shows client tree) where
  read_of :
      (path : Text) (w : W) (secret : VaultSecret)
      → (context "read secret" (client.get_secret path []) w).0 ≡ ok secret
      → secret ≡ tree.document path
  unfolding context
  read_of path w secret h = shows.read path w secret (ground arith)

  listed_of :
      (path : Text) (w : W) (keys : List Text)
      → (context "list keys" (client.list_keys path) w).0 ≡ ok keys
      → keys ≡ tree.folder path
  unfolding context
  listed_of path w keys h = shows.listed path w keys (ground arith)

  document_of :
      (path key : Text) (secret : VaultSecret) (scan : Scan) (secrets : Dict Secret)
      → has_suffix b'/' key ≡ false
      → secret ≡ tree.document (join_path path key)
      → add_keys (join_path path key) secret.version_id secret.keys scan.secrets ≡ ok secrets
      → KeyStep tree path key scan (record scan { secrets = secrets })
  document_of path key secret scan secrets no_folder same added =
      key_of_document secrets no_folder (rw same at added)

  scan_keys-KeySteps :
      (path : Text) (keys : List Text) (scan after : Scan) (w : W)
      → (scan_keys client path keys scan w).0 ≡ ok after
      → KeySteps tree path keys scan after
  unfolding scan_keys pure lift
  scan_keys-KeySteps path [] scan after w h =
      let same : scan ≡ after = ground arith in subst (KeySteps tree path [] scan) same no_keys
  scan_keys-KeySteps path (key ∷ keys) scan after w h = elim (Bool-cases (has_suffix b'/' key)) [
    | inl is_folder ↦
        let rest = rw is_folder at h in
        more_keys (key_of_folder is_folder)
          (scan_keys-KeySteps path keys (queued path key scan) after w rest)
    | inr no_folder ↦
        let run = rw no_folder at h in
        let (secret, read, added) = run_ok _ _ w after run in
        let (secrets, added_ok, rest) = run_ok _ _ _ after added in
        more_keys
          (document_of path key secret scan secrets no_folder (read_of _ w secret read) added_ok)
          (scan_keys-KeySteps path keys _ after _ rest)
  ]

  visit_of :
      (path : Text) (keys rest : List Text) (scan scan' : Scan) (d : Dict Secret)
      → scan.paths_to_scan ≡ path ∷ rest
      → Dict.has path scan.seen_paths ≡ false
      → keys ≡ tree.folder path
      → KeySteps tree path keys (visited path rest scan) scan'
      → Passes tree d scan'
      → Passes tree d scan
  visit_of path keys rest scan scan' d queue fresh same steps later =
      visit path rest scan' queue fresh (rw same at steps) later

  pass-Passes :
      (path : Text) (rest : List Text) (scan scan' : Scan) (d : Dict Secret) (w : W)
      → scan.paths_to_scan ≡ path ∷ rest
      → (scan_path client path (record scan { paths_to_scan = rest }) w).0 ≡ ok scan'
      → Passes tree d scan'
      → Passes tree d scan
  unfolding scan_path pure
  pass-Passes path rest scan scan' d w queue h later =
      elim (Bool-cases (Dict.has path scan.seen_paths)) [
        | inl seen ↦
            let left = rw seen at h in
            let same : record scan { paths_to_scan = rest } ≡ scan' = ground arith in
            pass_over path rest queue seen (subst (Passes tree d) (sym same) later)
        | inr fresh ↦
            let run = rw fresh at h in
            let (keys, listing, steps) = run_ok _ _ w scan' run in
            visit_of path keys rest scan scan' d queue fresh (listed_of path w keys listing)
              (scan_keys-KeySteps path keys _ scan' _ steps) later
      ]

  abbrev Implemented : ℕ → Type 0
  Implemented fuel =
      (scan : Scan) (d : Dict Secret) (w : W)
      → (scan_all client fuel scan w).0 ≡ ok (some d)
      → Passes tree d scan

  next_pass-Passes :
      (fuel : ℕ) (scan : Scan) (queue : List Text) (d : Dict Secret) (w : W)
      → scan.paths_to_scan ≡ queue
      → Implemented fuel
      → (next_pass client fuel scan queue w).0 ≡ ok (some d)
      → Passes tree d scan
  unfolding pure
  next_pass-Passes fuel scan [] d w queue ih h = nothing_left queue (ground arith)
  next_pass-Passes fuel scan (path ∷ rest) d w queue ih h =
      let (scan', passed, later) = run_ok _ _ w (some d) h in
      pass-Passes path rest scan scan' d w queue passed (ih scan' d _ later)

  scan_all-Passes : (fuel : ℕ) → Implemented fuel
  unfolding scan_all pure
  scan_all-Passes zero scan d w h = cc
  scan_all-Passes (suc fuel) scan d w h =
      next_pass-Passes fuel scan scan.paths_to_scan d w refl (scan_all-Passes fuel)
        (subst (λ m. (m w).0 ≡ ok (some d)) (next_pass_elim client fuel scan scan.paths_to_scan) h)

  -- A listing that returns is a sequence of passes from the root.
  pub list_secrets-Passes :
      (fuel : ℕ) (d : Dict Secret) (w : W)
      → (list_secrets client fuel w).0 ≡ ok (some d)
      → Passes tree d (record { paths_to_scan = [] ∷ []; seen_paths = []; secrets = [] })
  unfolding list_secrets
  list_secrets-Passes fuel d w h = scan_all-Passes fuel _ d w h
