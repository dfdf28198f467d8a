-- ===== src/Cli/Vault/Paths.antt =====
-- The mount path that Vault is set up for.
use cloud_secrets.Prelude.{◌≡◌, ◌≢◌, [], arith, if◌then◌else◌, ok, Text, ◌==◌}
use mathlib.Core.Path.{subst}
use cloud_secrets.Prelude.Exec.{run_ok, lift}
use cloud_secrets.Strings.Trim.{trim_slashes, trim_slashes_idem}
use cloud_secrets.Engine
use cloud_secrets.Cli.Vault.{Terminal, cleaned, vault_default_mount_path, vault_mount_path}

-- Not empty, and with no slash at its ends.
pub record IsMountPath (path : Text) : Type 0 where
  pub named : path ≢ []
  pub trimmed : trim_slashes path ≡ path

cleaned-IsMountPath :
    {W : Type 0} (docker : Engine.Client W) (exec : Terminal W) (given path : Text)
    → cleaned docker exec given ≡ ok path
    → IsMountPath path
cleaned-IsMountPath docker exec given path h =
    let whole : Text = if given == [] then vault_default_mount_path else given in
    let same : trim_slashes whole ≡ path = ground arith in
    record {
      named = λ e. ground arith;
      trimmed = subst (λ t. trim_slashes t ≡ t) same (trim_slashes_idem whole);
    }

-- Whatever the arguments, the environment and the user say, the mount path that is used is not
-- empty and has no slash at its ends.
pub vault_mount_path-IsMountPath :
    {W : Type 0} (docker : Engine.Client W) (exec : Terminal W) (w : W) (path : Text)
    → (vault_mount_path docker exec w).0 ≡ ok path
    → IsMountPath path
unfolding vault_mount_path lift
vault_mount_path-IsMountPath docker exec w path h =
    let (given, asked, rest) = run_ok _ _ w path h in
    cleaned-IsMountPath docker exec given path rest
