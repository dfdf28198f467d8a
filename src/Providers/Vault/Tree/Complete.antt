-- ===== src/Providers/Vault/Tree/Complete.antt =====
-- The scan misses nothing: by induction on its passes, what a seen folder holds is found, seen or
-- queued.
use cloud_secrets.Prelude.{
  ◌≡◌, refl, true, false, Bool-cases, inl, inr, List, [], ◌∷◌, ◌⊎◌, Text, ◌==◌,
}
use cloud_secrets.Prelude.Bytes.{eq→≡, Text-discrete}
use cloud_secrets.Prelude.Dict
use cloud_secrets.Prelude.Dict.{Dict}
use cloud_secrets.Strings.Search.{has_suffix}
use cloud_secrets.Providers.Contracts.{Secret}
use cloud_secrets.Providers.Vault.{Scan, join_path}
use cloud_secrets.Providers.Vault.Listing.{member}
use cloud_secrets.Providers.Vault.Tree.{Tree, subfolder, Reached, root, below, IsKept}
use cloud_secrets.Providers.Vault.Tree.Steps.{
  queued, visited, Passes, nothing_left, pass_over, visit,
}
use cloud_secrets.Providers.Vault.Tree.Takes.{member_cases, member_one, Takes, KeySteps-Takes}

module _ (tree : Tree) where
  -- A path is seen, or still in the queue.
  abbrev pub Pending : Scan → Text → Type 0
  Pending scan t = (Dict.has t scan.seen_paths ≡ true) ⊎ (member t scan.paths_to_scan ≡ true)

  -- What a seen folder holds is seen, queued or found.
  pub record Covers (scan : Scan) : Type 0 where
    pub root : Pending scan []
    pub folders :
        (path key : Text)
        → Dict.has path scan.seen_paths ≡ true
        → member key (tree.folder path) ≡ true
        → has_suffix b'/' key ≡ true
        → Pending scan (subfolder path key)
    pub names :
        (path key name : Text)
        → Dict.has path scan.seen_paths ≡ true
        → member key (tree.folder path) ≡ true
        → has_suffix b'/' key ≡ false
        → member name (tree.document (join_path path key)).keys ≡ true
        → Dict.has (join_path (join_path path key) name) scan.secrets ≡ true

  settled :
      (scan : Scan) (t : Text)
      → scan.paths_to_scan ≡ []
      → Pending scan t
      → Dict.has t scan.seen_paths ≡ true
  settled scan t empty (inl seen) = seen
  settled scan t empty (inr queued) = let none_queued = rw empty at queued in cc

  -- With an empty queue every folder has been seen.
  Reached-seen :
      (scan : Scan) (path : Text)
      → Covers scan
      → scan.paths_to_scan ≡ []
      → Reached tree path
      → Dict.has path scan.seen_paths ≡ true
  Reached-seen scan _ covers empty root = settled scan [] empty covers.root
  Reached-seen scan _ covers empty (below {path} key reached child is_folder) =
      settled scan _ empty
        (covers.folders path key (Reached-seen scan path covers empty reached) child is_folder)

  still_over :
      (scan : Scan) (path : Text) (rest : List Text) (t : Text)
      → scan.paths_to_scan ≡ path ∷ rest
      → Dict.has path scan.seen_paths ≡ true
      → Pending scan t
      → Pending (record scan { paths_to_scan = rest }) t
  still_over scan path rest t queue seen (inl before) = inl before
  still_over scan path rest t queue seen (inr queued) =
      elim (member_cases path t rest (rw queue at queued)) [
        | inl this ↦ inl (rw (← member_one path t this) seen)
        | inr later ↦ inr later
      ]

  -- A pass over a seen path covers what the scan did.
  over-Covers :
      (scan : Scan) (path : Text) (rest : List Text)
      → Covers scan
      → scan.paths_to_scan ≡ path ∷ rest
      → Dict.has path scan.seen_paths ≡ true
      → Covers (record scan { paths_to_scan = rest })
  over-Covers scan path rest covers queue seen = record {
    root = still_over scan path rest [] queue seen covers.root;
    folders =
        λ p key s among h. still_over scan path rest _ queue seen (covers.folders p key s among h);
    names = covers.names;
  }

  still_visited :
      (scan scan' : Scan) (path : Text) (rest keys : List Text) (t : Text)
      → scan.paths_to_scan ≡ path ∷ rest
      → Takes tree path keys (visited path rest scan) scan'
      → Pending scan t
      → Pending scan' t
  still_visited scan scan' path rest keys t queue takes (inl before) =
      inl (rw takes.seen (Dict.has-insert_old t path tt scan.seen_paths before))
  still_visited scan scan' path rest keys t queue takes (inr queued) =
      elim (member_cases path t rest (rw queue at queued)) [
        | inl this ↦ inl (
            rw takes.seen
              (rw (← member_one path t this) (Dict.has-insert_new path tt scan.seen_paths)))
        | inr later ↦ inr (takes.queue t later)
      ]

  -- What is seen behind a visit is its path, or was seen before.
  seen_cases :
      (scan scan' : Scan) (path : Text) (rest keys : List Text) (t : Text)
      → Takes tree path keys (visited path rest scan) scan'
      → Dict.has t scan'.seen_paths ≡ true
      → (path ≡ t) ⊎ (Dict.has t scan.seen_paths ≡ true)
  seen_cases scan scan' path rest keys t takes h =
      let written = rw (takes.seen, Dict.has-insert t path tt scan.seen_paths) at h in
      elim (Bool-cases (path == t)) [
        | inl this ↦ inl (eq→≡ path t this)
        | inr other ↦ inr (rw other at written)
      ]

  -- A visit of a new path covers what the scan did, and what the path holds.
  visit-Covers :
      (scan scan' : Scan) (path : Text) (rest : List Text)
      → Covers scan
      → scan.paths_to_scan ≡ path ∷ rest
      → Takes tree path (tree.folder path) (visited path rest scan) scan'
      → Covers scan'
  visit-Covers scan scan' path rest covers queue takes = record {
    root = still_visited scan scan' path rest _ [] queue takes covers.root;
    folders = λ p key s among h. elim (seen_cases scan scan' path rest _ p takes s) [
      | inl this ↦ let here = rw (← this) at among in inr (rw (← this) (takes.folders key here h))
      | inr before ↦
          still_visited scan scan' path rest _ _ queue takes (covers.folders p key before among h)
    ];
    names = λ p key name s among h has. elim (seen_cases scan scan' path rest _ p takes s) [
      | inl this ↦
          let here = rw (← this) at among in
          let has_here = rw (← this) at has in rw (← this) (takes.names key name here h has_here)
      | inr before ↦ takes.found _ (covers.names p key name before among h has)
    ];
  }

  -- What the passes find has every key of every document.
  pub Passes-complete :
      (d : Dict Secret) (scan : Scan)
      → Passes tree d scan
      → Covers scan
      → (path version : Text) → IsKept tree path version
      → Dict.has path d ≡ true
  Passes-complete d scan (nothing_left empty is) covers path version kept =
      let seen = Reached-seen scan kept.folder covers empty kept.reached in
      rw (kept.path_is, ← is)
        (covers.names kept.folder kept.key kept.name seen kept.child kept.no_folder kept.named)
  Passes-complete d scan (pass_over now rest queue seen later) covers path version kept =
      Passes-complete d _ later (over-Covers scan now rest covers queue seen) path version kept
  Passes-complete d scan (visit now rest scan' queue fresh steps later) covers path version kept =
      Passes-complete d scan' later
        (visit-Covers scan scan' now rest covers queue
          (KeySteps-Takes tree now (tree.folder now) (visited now rest scan) scan' steps))
        path version kept

  pub start-Covers : Covers (record { paths_to_scan = [] ∷ []; seen_paths = []; secrets = [] })
  unfolding Dict.has Dict.lookup Text-discrete
  start-Covers = record {
    root = inr refl;
    folders = λ path key s among h. cc;
    names = λ path key name s among h has. cc;
  }
