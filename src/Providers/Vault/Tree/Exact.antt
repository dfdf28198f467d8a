-- ===== src/Providers/Vault/Tree/Exact.antt =====
-- `ListSecrets` lists the keys of the documents of the tree, neither more nor less.
use cloud_secrets.Prelude.{ℕ, ◌≡◌, true, some, ok, Text}
use cloud_secrets.Prelude.Dict
use cloud_secrets.Prelude.Dict.{Dict}
use cloud_secrets.Providers.Contracts.{Secret}
use cloud_secrets.Providers.Vault.{VaultClient, list_secrets}
use cloud_secrets.Providers.Vault.Tree.{Tree, Shows, IsKept}
use cloud_secrets.Providers.Vault.Tree.Steps.{list_secrets-Passes}
use cloud_secrets.Providers.Vault.Tree.Complete.{Passes-complete, start-Covers}
use cloud_secrets.Providers.Vault.Tree.Sound.{Passes-Sound, start-Sound}

pub record Lists (tree : Tree) (d : Dict Secret) : Type 0 where
  pub complete : (path version : Text) → IsKept tree path version → Dict.has path d ≡ true
  pub sound :
      (path : Text) (entry : Secret)
      → Dict.lookup path d ≡ some entry
      → (entry.path ≡ path) × IsKept tree path entry.version_id

-- Whenever its calls that succeed show one tree of folders and documents, also one with folders
-- that lead back to each other, a listing that returns has an entry for every key of every document
-- that the folders lead to from the root, and every entry stands under its own path and has the
-- version of a document that has the key of that path.
pub list_secrets-Lists :
    {W : Type 0} (client : VaultClient W) (tree : Tree) (fuel : ℕ) (w : W) (d : Dict Secret)
    → Shows client tree
    → (list_secrets client fuel w).0 ≡ ok (some d)
    → Lists tree d
list_secrets-Lists client tree fuel w d shows h =
    let passes = list_secrets-Passes shows fuel d w h in
    record {
      complete = Passes-complete tree d _ passes (start-Covers tree);
      sound = Passes-Sound tree d _ passes (start-Sound tree);
    }
