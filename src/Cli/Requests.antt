-- ===== src/Cli/Requests.antt =====
-- internal/application/cli/vault.go: the requests for the policy and the AppRole role.
use cloud_secrets.Prelude.{List, [], ◌∷◌, ◌++◌, Text, codes}
use cloud_secrets.Strings.Trim.{trim_slashes, trim_space}
use cloud_secrets.Providers.Vault.Api.{CreateAclPolicyRequest}
use cloud_secrets.Providers.Vault.Api.Role.{CreateAppRoleRequest}

-- `fmt.Sprintf` of the policy with the mount path
abbrev pub quoted : Text → Text → List Text → Text
quoted mount path capabilities =
    codes "path "
    ++ (34 ∷ [])
    ++ mount
    ++ path
    ++ (34 ∷ [])
    ++ codes " {"
    ++ (10 ∷ [])
    ++ codes "  capabilities = ["
    ++ joined capabilities
    ++ codes "]"
    ++ (10 ∷ [])
    ++ codes "}"
    ++ (10 ∷ [])
  where
    joined : List Text → Text
    joined [] = []
    joined (c ∷ []) = (34 ∷ []) ++ c ++ (34 ∷ [])
    joined (c ∷ d ∷ ds) = (34 ∷ []) ++ c ++ (34 ∷ []) ++ codes ", " ++ joined (d ∷ ds)

unfoldable pub new_cloud_secrets_acl_policy_request : Text → Text → CreateAclPolicyRequest
unfolding trim_slashes trim_space
new_cloud_secrets_acl_policy_request name mount_path =
    let mount = trim_slashes (trim_space mount_path) in
    record {
      name = name;
      rules =
          (10 ∷ [])
          ++ quoted mount (codes "/metadata") (codes "list" ∷ [])
          ++ (10 ∷ [])
          ++ quoted mount (codes "/metadata/*") (codes "read" ∷ codes "list" ∷ [])
          ++ (10 ∷ [])
          ++ quoted mount (codes "/data/*") (codes "read" ∷ []);
    }

unfoldable pub new_cloud_secrets_app_role_request : Text → Text → CreateAppRoleRequest
new_cloud_secrets_app_role_request name policy_name = record {
  name = name;
  token_policies = policy_name ∷ [];
  token_ttl = codes "1h";
  token_max_ttl = codes "4h";
  secret_id_ttl = codes "0";
  secret_id_num_uses = 0;
}
