-- ===== src/Providers/Vault/Settings.antt =====
-- internal/providers/vault/config.go: the choice of the authentication.
use cloud_secrets.Prelude.{
  ◌≡◌, refl, Bool, true, false, not, ◌&&◌, ◌||◌, [], ◌∷◌, if◌then◌else◌, drop, message, Result, ok,
  err, Text, ◌==◌,
}
use cloud_secrets.Strings.{has_prefix}
use cloud_secrets.Strings.Trim.{trim_space}

-- The texts of api.AuthConfig and its AppRoleConfig
pub record AuthConfig : Type 0 where
  pub token : Text
  pub role_id : Text
  pub secret_id : Text

-- The bytes of the byte order mark
abbrev pub byte_order_mark : Text
byte_order_mark = 0xEF ∷ 0xBB ∷ 0xBF ∷ []

unfoldable pub normalize_secret_value : Text → Text
unfolding trim_space has_prefix
normalize_secret_value value =
    trim_space (if has_prefix value byte_order_mark then drop 3 value else value)

abbrev pub is_set : Text → Bool
is_set value = not (value == [])

-- The cases of the switch, by which of the three values are set.
abbrev check_methods : AuthConfig → Bool → Bool → Bool → Result AuthConfig
check_methods c token role_id secret_id =
    if token && (role_id || secret_id)
    then err (message "VAULT_AUTH_TOKEN cannot be combined with an AppRole")
    else if role_id && not secret_id
    then err (message "VAULT_AUTH_APPROLE_SECRET_ID must be set when the role ID is set")
    else if secret_id && not role_id
    then err (message "VAULT_AUTH_APPROLE_ROLE_ID must be set when the secret ID is set")
    else if not token && not role_id
    then err (message "vault authentication is not configured")
    else ok c

abbrev pub normalized : AuthConfig → AuthConfig
normalized c = record {
  token = normalize_secret_value c.token;
  role_id = normalize_secret_value c.role_id;
  secret_id = normalize_secret_value c.secret_id;
}

-- Config.Validate, which writes the normalized values through its receiver
unfoldable pub validate_auth : AuthConfig → Result AuthConfig
unfolding normalize_secret_value
validate_auth c =
    let n = normalized c in check_methods n (is_set n.token) (is_set n.role_id) (is_set n.secret_id)

abbrev pub is_ok : {A : Type 0} → Result A → Bool
is_ok (ok _) = true
is_ok _ = false

check_methods-is_ok :
    (c : AuthConfig) (token role_id secret_id : Bool)
    → is_ok (check_methods c token role_id secret_id)
      ≡ ((token && not role_id && not secret_id) || (not token && role_id && secret_id))
check_methods-is_ok c true true true = refl
check_methods-is_ok c true true false = refl
check_methods-is_ok c true false true = refl
check_methods-is_ok c true false false = refl
check_methods-is_ok c false true true = refl
check_methods-is_ok c false true false = refl
check_methods-is_ok c false false true = refl
check_methods-is_ok c false false false = refl

-- A configuration is valid exactly if, after normalization, it has a token and nothing of an
-- AppRole, or both credentials of an AppRole and no token.
pub validate_auth-is_ok :
    (c : AuthConfig)
    → let n = normalized c in
      is_ok (validate_auth c) ≡ (
        (is_set n.token && not (is_set n.role_id) && not (is_set n.secret_id))
        || (not (is_set n.token) && is_set n.role_id && is_set n.secret_id))
unfolding validate_auth
validate_auth-is_ok c =
    let n = normalized c in
    check_methods-is_ok n (is_set n.token) (is_set n.role_id) (is_set n.secret_id)
