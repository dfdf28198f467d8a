-- ===== src/Providers/Vault/Tree/Takes.antt =====
-- How the keys of one folder change the scan.
use cloud_secrets.Prelude.{
  ◌≡◌, refl, ◌∙◌, true, false, Bool-cases, inl, inr, List, [], ◌∷◌, ◌++◌, ◌⊎◌, arith, Text, ◌==◌,
}
use cloud_secrets.Prelude.Bytes.{eq→≡, eq_refl}
use cloud_secrets.Prelude.Dict
use cloud_secrets.Prelude.Dict.{Dict}
use cloud_secrets.Strings.Search.{has_suffix}
use cloud_secrets.Providers.Vault.{Scan, join_path}
use cloud_secrets.Providers.Vault.Listing.{member}
use cloud_secrets.Providers.Vault.Tree.{Tree, subfolder, add_keys-keeps, add_keys-has}
use cloud_secrets.Providers.Vault.Tree.Steps.{
  KeyStep, key_of_folder, key_of_document, KeySteps, no_keys, more_keys,
}

member_append : (t : Text) (ts us : List Text) → member t ts ≡ true → member t (ts ++ us) ≡ true
member_append t [] us h = cc
member_append t (u ∷ ts) us h = ground (arith, member_append t ts us)

member_last : (t : Text) (ts : List Text) → member t (ts ++ t ∷ []) ≡ true
member_last t [] = ground (arith, eq_refl t)
member_last t (u ∷ ts) = ground (arith, member_last t ts)

pub member_one : (t u : Text) → member u (t ∷ []) ≡ true → t ≡ u
member_one t u h = eq→≡ t u (ground arith)

pub member_cases :
    (t u : Text) (ts : List Text)
    → member u (t ∷ ts) ≡ true
    → (member u (t ∷ []) ≡ true) ⊎ (member u ts ≡ true)
member_cases t u ts h = elim (Bool-cases (t == u)) [
  | inl this ↦ inl (ground arith)
  | inr other ↦ inr (ground arith)
]

module _ (tree : Tree) where
  -- How the scan grows with the keys of a folder.
  pub record Takes (path : Text) (keys : List Text) (before after : Scan) : Type 0 where
    pub seen : after.seen_paths ≡ before.seen_paths
    pub queue :
        (t : Text) → member t before.paths_to_scan ≡ true → member t after.paths_to_scan ≡ true
    pub found : (t : Text) → Dict.has t before.secrets ≡ true → Dict.has t after.secrets ≡ true
    pub folders :
        (key : Text)
        → member key keys ≡ true
        → has_suffix b'/' key ≡ true
        → member (subfolder path key) after.paths_to_scan ≡ true
    pub names :
        (key name : Text)
        → member key keys ≡ true
        → has_suffix b'/' key ≡ false
        → member name (tree.document (join_path path key)).keys ≡ true
        → Dict.has (join_path (join_path path key) name) after.secrets ≡ true

  one-Takes :
      (path key : Text) (before after : Scan)
      → KeyStep tree path key before after
      → Takes path (key ∷ []) before after
  one-Takes path key before _ (key_of_folder is_folder) = record {
    seen = refl;
    queue = λ t h. member_append t before.paths_to_scan _ h;
    found = λ t h. h;
    folders = λ key' one h.
        rw (← member_one key key' one) (member_last (subfolder path key) before.paths_to_scan);
    names = λ key' name one h among.
        let same = member_one key key' one in absurd (cc (same, is_folder, h));
  }
  one-Takes path key before _ (key_of_document secrets no_folder added) = record {
    seen = refl;
    queue = λ t h. h;
    found = λ t h. add_keys-keeps _ _ _ _ secrets t added h;
    folders = λ key' one h. let same = member_one key key' one in absurd (cc (same, no_folder, h));
    names = λ key' name one h among.
        let same = member_one key key' one in
        let among_one = rw (← same) at among in
        rw (← same) (add_keys-has _ _ _ _ secrets name added among_one);
  }

  pub KeySteps-Takes :
      (path : Text) (keys : List Text) (before after : Scan)
      → KeySteps tree path keys before after
      → Takes path keys before after
  KeySteps-Takes path [] before _ no_keys = record {
    seen = refl;
    queue = λ t h. h;
    found = λ t h. h;
    folders = λ key one h. cc;
    names = λ key name one h among. cc;
  }
  KeySteps-Takes path (key ∷ keys) before after (more_keys {scan'} step steps) =
      let first = one-Takes path key before scan' step in
      let rest = KeySteps-Takes path keys scan' after steps in
      record {
        seen = rest.seen ∙ first.seen;
        queue = λ t h. rest.queue t (first.queue t h);
        found = λ t h. rest.found t (first.found t h);
        folders = λ key' among h. elim (member_cases key key' keys among) [
          | inl this ↦ rest.queue _ (first.folders key' this h)
          | inr later ↦ rest.folders key' later h
        ];
        names = λ key' name among h has. elim (member_cases key key' keys among) [
          | inl this ↦ rest.found _ (first.names key' name this h has)
          | inr later ↦ rest.names key' name later h has
        ];
      }
