-- ===== src/Sync/Restore.antt =====
-- step6_restore_parent_secrets.go: the parents of updated secrets are created anew. The log lines
-- are left out.
use cloud_secrets.Prelude.{List, [], ◌∷◌}
use cloud_secrets.Prelude.Exec.{pure, context, ◌>>◌}
use cloud_secrets.Engine.{CreatingSecret}
use cloud_secrets.Sync.Payload.{Synchronizer, UpdatedSecret, Step, call}

abbrev pub restored : UpdatedSecret → CreatingSecret
restored secret = record {
  path = secret.path;
  value = secret.value;
  description = secret.description;
  external_path = secret.external_path;
  external_version_id = secret.external_id;
}

module _ {W : Type 0} (s : Synchronizer W) where
  unfoldable pub restore_secrets : List UpdatedSecret → Step W
  restore_secrets [] = pure tt
  restore_secrets (secret ∷ rest) =
      context "create new parent secret" (call (s.engine.create_secret (restored secret)))
      >> restore_secrets rest

  unfoldable pub restore_pending_secrets : Step W
  unfolding restore_secrets
  restore_pending_secrets st = restore_secrets st.payload.pending_secret_restores st
