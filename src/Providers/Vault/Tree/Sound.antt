-- ===== src/Providers/Vault/Tree/Sound.antt =====
-- The scan makes nothing up: by induction on its passes, its queue holds folders that are there, and
-- each of its entries is a key of a document that is there.
use cloud_secrets.Prelude.{
  ◌≡◌, sym, ◌∙◌, ap, true, false, inl, inr, List, [], ◌∷◌, ◌++◌, ◌⊎◌, arith, Text, some,
}
use mathlib.Core.Path.{subst}
use cloud_secrets.Prelude.Bytes.{eq_refl}
use cloud_secrets.Prelude.Dict
use cloud_secrets.Prelude.Dict.{Dict}
use cloud_secrets.Strings.Search.{has_suffix}
use cloud_secrets.Providers.Contracts.{Secret}
use cloud_secrets.Providers.Vault.{Scan, join_path}
use cloud_secrets.Providers.Vault.Listing.{member}
use cloud_secrets.Providers.Vault.Tree.{
  Tree, subfolder, Reached, root, below, IsKept, add_keys-from, Made, member_there,
}
use cloud_secrets.Providers.Vault.Tree.Steps.{
  visited, KeyStep, key_of_folder, key_of_document, KeySteps, no_keys, more_keys, Passes,
  nothing_left, pass_over, visit,
}
use cloud_secrets.Providers.Vault.Tree.Takes.{member_one}

module _ (tree : Tree) where
  pub record Sound (scan : Scan) : Type 0 where
    pub queue : (t : Text) → member t scan.paths_to_scan ≡ true → Reached tree t
    pub entries :
        (path : Text) (entry : Secret)
        → Dict.lookup path scan.secrets ≡ some entry
        → (entry.path ≡ path) × IsKept tree path entry.version_id

  member-append_cases :
      (t u : Text) (ts : List Text)
      → member u (ts ++ t ∷ []) ≡ true
      → (member u ts ≡ true) ⊎ (member u (t ∷ []) ≡ true)
  member-append_cases t u [] h = inr h
  member-append_cases t u (x ∷ ts) h = ground (arith, member-append_cases t u ts)

  Made-IsKept :
      (folder key path : Text) (entry : Secret)
      → Reached tree folder
      → member key (tree.folder folder) ≡ true
      → has_suffix b'/' key ≡ false
      → Made
          (join_path folder key)
          (tree.document (join_path folder key)).version_id
          (tree.document (join_path folder key)).keys
          path
          entry
      → (entry.path ≡ path) × IsKept tree path entry.version_id
  Made-IsKept folder key path entry reached child no_folder made = (
    ap (λ e. e.path) made.3 ∙ sym made.2,
    record {
      folder = folder;
      key = key;
      name = made.0;
      reached = reached;
      child = child;
      no_folder = no_folder;
      named = made.1;
      path_is = made.2;
      version_is = ap (λ e. e.version_id) made.3;
    },
  )

  one-Sound :
      (path key : Text) (before after : Scan)
      → Reached tree path
      → member key (tree.folder path) ≡ true
      → KeyStep tree path key before after
      → Sound before
      → Sound after
  one-Sound path key before _ reached child (key_of_folder is_folder) sound = record {
    queue = λ t h. elim (member-append_cases (subfolder path key) t before.paths_to_scan h) [
      | inl old ↦ sound.queue t old
      | inr this ↦
          subst (Reached tree) (member_one (subfolder path key) t this)
            (below key reached child is_folder)
    ];
    entries = sound.entries;
  }
  one-Sound path key before _ reached child (key_of_document secrets no_folder added) sound =
      record {
        queue = sound.queue;
        entries = λ t entry h. elim (add_keys-from _ _ _ before.secrets secrets t entry added h) [
          | inl old ↦ sound.entries t entry old
          | inr made ↦ Made-IsKept path key t entry reached child no_folder made
        ];
      }

  KeySteps-Sound :
      (path : Text) (keys : List Text) (before after : Scan)
      → Reached tree path
      → ((key : Text) → member key keys ≡ true → member key (tree.folder path) ≡ true)
      → KeySteps tree path keys before after
      → Sound before
      → Sound after
  KeySteps-Sound path [] before _ reached within no_keys sound = sound
  KeySteps-Sound path (key ∷ keys) before after reached within (more_keys {scan'} step steps)
        sound =
      KeySteps-Sound path keys scan' after reached (λ k h. within k (member_there key k keys h))
        steps
        (one-Sound path key before scan' reached (within key (ground (arith, eq_refl key))) step
          sound)

  -- The queue behind its first path.
  rest_of :
      (scan : Scan) (path t : Text) (rest : List Text)
      → scan.paths_to_scan ≡ path ∷ rest
      → member t rest ≡ true
      → member t scan.paths_to_scan ≡ true
  rest_of scan path t rest queue h = rw queue (member_there path t rest h)

  first_of :
      (scan : Scan) (path : Text) (rest : List Text)
      → scan.paths_to_scan ≡ path ∷ rest
      → member path scan.paths_to_scan ≡ true
  first_of scan path rest queue = rw queue (ground (arith, eq_refl path))

  -- What the passes find is a key of a document.
  pub Passes-Sound :
      (d : Dict Secret) (scan : Scan)
      → Passes tree d scan
      → Sound scan
      → (path : Text) (entry : Secret) → Dict.lookup path d ≡ some entry
      → (entry.path ≡ path) × IsKept tree path entry.version_id
  Passes-Sound d scan (nothing_left empty is) sound path entry h =
      sound.entries path entry (rw is h)
  Passes-Sound d scan (pass_over now rest queue seen later) sound path entry h =
      Passes-Sound d _ later
        (record {
          queue = λ t among. sound.queue t (rest_of scan now t rest queue among);
          entries = sound.entries;
        })
        path entry h
  Passes-Sound d scan (visit now rest scan' queue fresh steps later) sound path entry h =
      Passes-Sound d scan' later
        (KeySteps-Sound now (tree.folder now) (visited now rest scan) scan'
          (sound.queue now (first_of scan now rest queue)) (λ key among. among) steps
          (record {
            queue = λ t among. sound.queue t (rest_of scan now t rest queue among);
            entries = sound.entries;
          }))
        path entry h

  pub start-Sound : Sound (record { paths_to_scan = [] ∷ []; seen_paths = []; secrets = [] })
  unfolding Dict.lookup
  start-Sound = record {
    queue = λ t h. subst (Reached tree) (member_one [] t h) root;
    entries = λ path entry h. cc;
  }
