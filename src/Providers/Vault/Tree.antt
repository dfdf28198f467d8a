-- ===== src/Providers/Vault/Tree.antt =====
-- What Vault holds, as a tree of folders and documents, and the keys that `ListSecrets` makes of
-- one document.
pub mod Steps
pub mod Takes
pub mod Complete
pub mod Sound
pub mod Exact
use cloud_secrets.Prelude.{
  ◌≡◌, ◌⊎◌, inl, inr, true, false, Bool-cases, List, [], ◌∷◌, arith, some, ok, Text, ◌==◌, sym,
}
use cloud_secrets.Prelude.Bytes.{eq→≡, eq_refl}
use cloud_secrets.Prelude.Dict
use cloud_secrets.Prelude.Dict.{Dict}
use cloud_secrets.Strings.Search.{has_suffix, trim_suffix}
use cloud_secrets.Providers.Contracts.{Secret}
use cloud_secrets.Providers.Vault.Api.{VaultSecret}
use cloud_secrets.Providers.Vault.{VaultClient, join_path, add_keys}
use cloud_secrets.Providers.Vault.Listing.{member}

-- The keys of each folder, and the document at each path.
pub record Tree : Type 0 where
  pub folder : Text → List Text
  pub document : Text → VaultSecret

-- Whenever the client answers, its answer is the tree's; the tree does not change meanwhile.
pub record Shows {W : Type 0} (client : VaultClient W) (tree : Tree) : Type 0 where
  pub listed :
      (path : Text) (w : W) (keys : List Text)
      → (client.list_keys path w).0 ≡ ok keys
      → keys ≡ tree.folder path
  pub read :
      (path : Text) (w : W) (secret : VaultSecret)
      → (client.get_secret path [] w).0 ≡ ok secret
      → secret ≡ tree.document path

abbrev pub subfolder : Text → Text → Text
subfolder path key = join_path path (trim_suffix b'/' key)

-- A key with a slash at its end is a folder.
pub data Reached (tree : Tree) : Text → Type 0 where
  root : Reached tree []
  below :
      {path : Text} (key : Text)
      → Reached tree path
      → member key (tree.folder path) ≡ true
      → has_suffix b'/' key ≡ true
      → Reached tree (subfolder path key)

-- One of the keys of one of the documents of the tree, with the version of the document.
pub record IsKept (tree : Tree) (path version : Text) : Type 0 where
  pub folder : Text
  pub key : Text
  pub name : Text
  pub reached : Reached tree folder
  pub child : member key (tree.folder folder) ≡ true
  pub no_folder : has_suffix b'/' key ≡ false
  pub named : member name (tree.document (join_path folder key)).keys ≡ true
  pub path_is : path ≡ join_path (join_path folder key) name
  pub version_is : version ≡ (tree.document (join_path folder key)).version_id

abbrev pub entry_of : Text → Text → Text → Secret
entry_of full_path version_id key = record {
  version_id = version_id;
  path = join_path full_path key;
  full_path = [];
  description = [];
  web_url = [];
}

pub member_there : (t u : Text) (ts : List Text) → member u ts ≡ true → member u (t ∷ ts) ≡ true
member_there t u ts h = ground arith

module _ (full_path version_id : Text) where
  -- The entry of one of the keys.
  abbrev pub Made : List Text → Text → Secret → Type 0
  Made keys path entry =
      (name : Text) × (member name keys ≡ true)
      × (path ≡ join_path full_path name)
      × (entry ≡ entry_of full_path version_id name)

  add_keys-cons :
      (key : Text) (keys : List Text) (secrets d : Dict Secret)
      → add_keys full_path version_id (key ∷ keys) secrets ≡ ok d
      → add_keys full_path version_id keys
          (Dict.insert (join_path full_path key) (entry_of full_path version_id key) secrets)
        ≡ ok d
  unfolding add_keys
  add_keys-cons key keys secrets d h = ground arith

  pub add_keys-keeps :
      (keys : List Text) (secrets d : Dict Secret) (path : Text)
      → add_keys full_path version_id keys secrets ≡ ok d
      → Dict.has path secrets ≡ true
      → Dict.has path d ≡ true
  unfolding add_keys
  add_keys-keeps [] secrets d path h present = ground arith
  add_keys-keeps (key ∷ keys) secrets d path h present =
      add_keys-keeps keys _ d path (add_keys-cons key keys secrets d h) (
        Dict.has-insert_old path (join_path full_path key) (entry_of full_path version_id key)
          secrets present)

  pub add_keys-has :
      (keys : List Text) (secrets d : Dict Secret) (name : Text)
      → add_keys full_path version_id keys secrets ≡ ok d
      → member name keys ≡ true
      → Dict.has (join_path full_path name) d ≡ true
  add_keys-has [] secrets d name h present = cc
  add_keys-has (key ∷ keys) secrets d name h present = elim (Bool-cases (key == name)) [
    | inl this ↦
        add_keys-keeps keys _ d (join_path full_path name) (add_keys-cons key keys secrets d h) (
          rw (eq→≡ key name this) (
            Dict.has-insert_new (join_path full_path name) (entry_of full_path version_id name)
              secrets))
    | inr other ↦
        add_keys-has keys _ d name (add_keys-cons key keys secrets d h)
          (let rest = rw other at present in rest)
  ]

  insert-from :
      (key : Text) (keys : List Text) (secrets : Dict Secret) (path : Text) (entry : Secret)
      → Dict.lookup path
          (Dict.insert (join_path full_path key) (entry_of full_path version_id key) secrets)
        ≡ some entry
      → (Dict.lookup path secrets ≡ some entry) ⊎ Made (key ∷ keys) path entry
  insert-from key keys secrets path entry h =
      let looked_up =
        rw
          (Dict.lookup-insert path (join_path full_path key) (entry_of full_path version_id key)
            secrets)
          at h in
      elim (Bool-cases (join_path full_path key == path)) [
        | inl this ↦
            let made = rw this at looked_up in
            inr (key, ground (arith, eq_refl key), sym (eq→≡ _ _ this), ground arith)
        | inr other ↦ inl (rw other at looked_up)
      ]

  -- An entry behind the loop was there before, or is a key's.
  pub add_keys-from :
      (keys : List Text) (secrets d : Dict Secret) (path : Text) (entry : Secret)
      → add_keys full_path version_id keys secrets ≡ ok d
      → Dict.lookup path d ≡ some entry
      → (Dict.lookup path secrets ≡ some entry) ⊎ Made keys path entry
  unfolding add_keys
  add_keys-from [] secrets d path entry h found = inl (ground arith)
  add_keys-from (key ∷ keys) secrets d path entry h found =
      elim (add_keys-from keys _ d path entry (add_keys-cons key keys secrets d h) found) [
        | inl before ↦ insert-from key keys secrets path entry before
        | inr later ↦ inr (later.0, member_there key later.0 keys later.1, later.2, later.3)
      ]
