-- ===== src/Providers/Cloudru/Paths.antt =====
-- The paths inside and outside the root folder.
use cloud_secrets.Prelude.{
  ◌≡◌, refl, ◌≢◌, ◌⊎◌, inl, inr, true, false, ◌||◌, [], ◌∷◌, ◌++◌, arith, if◌then◌else◌, length,
  drop, Result, ok, err, panic, Text, ◌==◌,
}
use cloud_secrets.Providers.Cloudru.{
  Config, slash, resolve_secret_path, scope_secret_path, create_secret_path, create_normalized_path,
  scoped_or_invalid,
}
use cloud_secrets.Strings.{has_prefix}
use cloud_secrets.Strings.Trim.{trim_slashes, trim_slashes_idem, trim_space}

prefix-append-drop :
    (s prefix : Text) → has_prefix s prefix ≡ true → prefix ++ drop (length prefix) s ≡ s
unfolding has_prefix
prefix-append-drop s [] h = refl
prefix-append-drop [] (p ∷ ps) h = cc
prefix-append-drop (x ∷ xs) (p ∷ ps) h = ground (arith, prefix-append-drop xs ps)

-- With a root folder that is left out of the paths, the part of a path below it leads back to the
-- path, if the part is not empty and has no slash at its ends, unless it begins with the name of
-- the root folder itself: then it is taken for the whole path, and the payload that is read is
-- another secret's.
pub scope-resolve :
    (cfg : Config) (path scoped : Text)
    → cfg.root_folder_omit_prefix ≡ true
    → cfg.root_folder ≢ []
    → scope_secret_path cfg path ≡ ok scoped
    → trim_slashes scoped ≡ scoped
    → scoped ≢ []
    → resolve_secret_path cfg scoped ≡ (
        if scoped == cfg.root_folder || has_prefix scoped (cfg.root_folder ++ slash)
        then scoped
        else trim_slashes path)
unfolding resolve_secret_path scope_secret_path
scope-resolve cfg path scoped omit rooted h trimmed named =
    ground (arith, prefix-append-drop (trim_slashes path) (cfg.root_folder ++ slash))

abbrev IsPlain : Config → Type 0
IsPlain cfg = (cfg.root_folder_omit_prefix ≡ false) ⊎ (cfg.root_folder ≡ [])

scope_of_plain :
    (cfg : Config) (path : Text)
    → IsPlain cfg
    → trim_slashes path ≡ path
    → scope_secret_path cfg path ≡ ok path
unfolding scope_secret_path
scope_of_plain cfg path (inl listed_whole) trimmed = ground arith
scope_of_plain cfg path (inr no_root) trimmed = ground arith

pub scoped_or_invalid_ok :
    (full : Text) (r : Result Text) (logical_path full_path : Text)
    → scoped_or_invalid full r ≡ ok (logical_path, full_path)
    → (r ≡ ok logical_path) × (full ≡ full_path)
scoped_or_invalid_ok full (ok logical) logical_path full_path h = ground arith
scoped_or_invalid_ok full (err e) logical_path full_path h = cc
scoped_or_invalid_ok full panic logical_path full_path h = cc

normalized-scope :
    (cfg : Config) (normalized logical_path full_path : Text)
    → trim_slashes normalized ≡ normalized
    → create_normalized_path cfg normalized ≡ ok (logical_path, full_path)
    → scope_secret_path cfg full_path ≡ ok logical_path
unfolding create_normalized_path
normalized-scope cfg normalized logical_path full_path trimmed h = ground (
  arith,
  scoped_or_invalid_ok (resolve_secret_path cfg normalized)
      (scope_secret_path cfg (resolve_secret_path cfg normalized)) logical_path full_path,
  scope_of_plain cfg normalized,
)

-- What is created is found again: the full path of a new secret is listed under the logical path
-- that its creation returns.
pub create-scope :
    (cfg : Config) (value logical_path full_path : Text)
    → create_secret_path cfg value ≡ ok (logical_path, full_path)
    → scope_secret_path cfg full_path ≡ ok logical_path
unfolding create_secret_path
create-scope cfg value logical_path full_path h =
    normalized-scope cfg _ logical_path full_path (trim_slashes_idem (trim_space value)) h
