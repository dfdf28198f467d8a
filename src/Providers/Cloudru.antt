-- ===== src/Providers/Cloudru.antt =====
-- internal/providers/cloudru: secret.go, config.go and the choice of endpoints of provider.go. The
-- foreign secret service is an argument.
use cloud_secrets.Providers.Grpc.{is_already_exists, Code, is_invalid_argument}
use cloud_secrets.Prelude.Dict
use cloud_secrets.Prelude.Dict.{Dict}
pub mod Paths
pub mod Iam
pub mod Endpoints
pub mod Connect
pub mod Listing
pub mod Created
use cloud_secrets.Prelude.{
  ℕ, ◌/◌, String, Bool, not, ◌&&◌, ◌||◌, Option, none, some, List, [], ◌∷◌, ◌++◌, map,
  if◌then◌else◌, length, drop, Error, message, sentinel, wrap, wrap_both, Result, ok, err, panic,
  Text, codes, ◌==◌, invalid_create_request, secret_already_exists,
}
use cloud_secrets.Prelude.Exec.{Exec, lift, ◌>>=◌, context}
use cloud_secrets.Strings.{has_prefix}
use cloud_secrets.Strings.Decimal.{itoa}
use cloud_secrets.Strings.Trim.{trim_slashes, trim_space}
use cloud_secrets.Providers.Contracts.{CreateSecretRequest, Secret, Provider}
use cloud_secrets.Providers.Paths.{has_invalid_segment}

pub record Config : Type 0 where
  pub iam_address : Text
  pub iam_client_id : Text
  pub iam_client_secret : Text
  pub csm_address : Text
  pub discovery_url : Text
  pub project_id : Text
  pub root_folder : Text
  pub root_folder_omit_prefix : Bool

-- RootFolder.UnmarshalText
unfoldable pub unmarshal_root_folder : Text → Text
unfolding trim_slashes
unmarshal_root_folder text = trim_slashes text

unfoldable pub validate_config : Config → Result (Unit {0})
validate_config c =
    if c.root_folder_omit_prefix && c.root_folder == []
    then err (message "CLOUDRU_ROOT_FOLDER must be set when CLOUDRU_ROOT_FOLDER_OMIT_PREFIX=true")
    else ok tt

-- v2.SecretVersion and v2.Secret
pub record SecretVersion : Type 0 where
  pub id : ℕ
  pub enabled : Bool

pub record CloudSecret : Type 0 where
  pub name : Text
  pub path : Text
  pub description : Text
  pub versions : List SecretVersion

pub record CloudCreateRequest : Type 0 where
  pub project_id : Text
  pub path : Text
  pub description : Text
  pub payload : Text

-- The interface `secretServiceClient` over a world; `search` takes the project and the path, with
-- any depth. `status_code` is `status.Code`, and `web_url` and `query_escape` are `net/url`.
pub record SecretService (W : Type 0) : Type 0 where
  pub create : CloudCreateRequest → Exec W (Unit {0})
  pub search : Text → Text → Exec W (List CloudSecret)
  pub access : Text → Text → Exec W Text
  pub status_code : Error → Code
  pub web_url : Text → Text → Text
  pub query_escape : Text → Text

abbrev pub slash : Text
slash = codes "/"

unfoldable pub resolve_secret_path : Config → Text → Text
unfolding trim_slashes has_prefix
resolve_secret_path cfg path =
    if not cfg.root_folder_omit_prefix
    then path
    else if cfg.root_folder == []
    then path
    else if trim_slashes path == []
    then cfg.root_folder
    else if trim_slashes path == cfg.root_folder
        || has_prefix (trim_slashes path) (cfg.root_folder ++ slash)
    then trim_slashes path
    else cfg.root_folder ++ slash ++ trim_slashes path

unfoldable pub scope_secret_path : Config → Text → Result Text
unfolding trim_slashes has_prefix
scope_secret_path cfg path =
    if not cfg.root_folder_omit_prefix
    then ok (trim_slashes path)
    else if cfg.root_folder == []
    then ok (trim_slashes path)
    else if trim_slashes path == cfg.root_folder
    then err (message "path matches root folder")
    else if not (has_prefix (trim_slashes path) (cfg.root_folder ++ slash))
    then err (message "path is outside root folder")
    else ok (drop (length (cfg.root_folder ++ slash)) (trim_slashes path))

abbrev pub invalid : {A : Type 0} → String → Result A
invalid w = err (wrap w (sentinel invalid_create_request))

abbrev pub scoped_or_invalid : Text → Result Text → Result (Text × Text)
scoped_or_invalid full_path (ok logical_path) = ok (logical_path, full_path)
scoped_or_invalid full_path (err e) = err (wrap_both "scope" (sentinel invalid_create_request) e)
scoped_or_invalid full_path panic = panic

-- `createSecretPath` behind the normalization.
unfoldable pub create_normalized_path : Config → Text → Result (Text × Text)
unfolding has_invalid_segment resolve_secret_path scope_secret_path has_prefix
create_normalized_path cfg normalized =
    if normalized == []
    then invalid "path is required"
    else if has_invalid_segment normalized
    then invalid "path contains an invalid segment"
    else if cfg.root_folder == []
    then ok (normalized, normalized)
    else if cfg.root_folder_omit_prefix
    then scoped_or_invalid (resolve_secret_path cfg normalized)
        (scope_secret_path cfg (resolve_secret_path cfg normalized))
    else if normalized == cfg.root_folder || not (has_prefix normalized (cfg.root_folder ++ slash))
    then invalid "path must be inside root folder"
    else ok (normalized, normalized)

unfoldable pub create_secret_path : Config → Text → Result (Text × Text)
unfolding create_normalized_path trim_slashes trim_space
create_secret_path cfg value = create_normalized_path cfg (trim_slashes (trim_space value))

unfoldable pub secret_latest_version_id : List SecretVersion → Option Text
unfolding itoa
secret_latest_version_id [] = none
secret_latest_version_id (version ∷ rest) =
    if version.enabled then some (itoa version.id) else secret_latest_version_id rest

abbrev pub map_scoped : CloudSecret → Text → Result Text → Result Secret
map_scoped secret version_id (ok scoped_path) = ok (record {
  version_id = version_id;
  path = scoped_path;
  full_path = secret.path;
  description = secret.description;
  web_url = [];
})
map_scoped secret version_id (err e) = err (wrap "scope secret path" e)
map_scoped secret version_id panic = panic

abbrev pub map_versioned : Config → CloudSecret → Option Text → Result Secret
map_versioned cfg secret none = err (message "corrupted version of secret")
map_versioned cfg secret (some version_id) =
    map_scoped secret version_id (scope_secret_path cfg secret.path)

unfoldable pub map_secret : Config → CloudSecret → Result Secret
unfolding secret_latest_version_id scope_secret_path
map_secret cfg secret = map_versioned cfg secret (secret_latest_version_id secret.versions)

abbrev pub collect_mapped : (Secret → Result (Dict Secret)) → Result Secret → Result (Dict Secret)
collect_mapped rest (ok mapped) = rest mapped
collect_mapped rest (err e) = err (wrap "map secret" e)
collect_mapped rest panic = panic

-- The loop of `ListSecrets`.
unfoldable pub collect : Config → List CloudSecret → Dict Secret → Result (Dict Secret)
unfolding map_secret Dict.insert
collect cfg [] d = ok d
collect cfg (secret ∷ rest) d =
    collect_mapped (λ mapped. collect cfg rest (Dict.insert secret.path mapped d))
      (map_secret cfg secret)

module _ {W : Type 0} (cfg : Config) (service : SecretService W) where
  abbrev pub creation_error : Error → Error
  creation_error e =
      if is_already_exists (service.status_code e)
      then wrap "Cloud.ru secret" (sentinel secret_already_exists)
      else if is_invalid_argument (service.status_code e)
      then wrap_both "Cloud.ru rejected path" (sentinel invalid_create_request) e
      else wrap "create Cloud.ru secret" e

  abbrev pub created : CreateSecretRequest → Text × Text → Result (Unit {0}) → Result Secret
  created req (logical_path, full_path) (ok _) = ok (record {
    version_id = [];
    path = logical_path;
    full_path = full_path;
    description = req.description;
    web_url = service.web_url full_path cfg.project_id;
  })
  created req paths (err e) = err (creation_error e)
  created req paths panic = panic

  abbrev create_at : CreateSecretRequest → Text × Text → Exec W Secret
  create_at req paths w =
      let (r, w') =
        service.create
          (record {
            project_id = cfg.project_id;
            path = paths.1;
            description = req.description;
            payload = req.value;
          })
          w in
      (created req paths r, w')

  unfoldable pub create_secret : CreateSecretRequest → Exec W Secret
  unfolding create_secret_path
  create_secret req =
      if not (req.key == [])
      then lift (invalid "key must be empty for Cloud.ru")
      else lift (create_secret_path cfg req.path) >>= create_at req

  unfoldable pub get_secret_payload : Text → Exec W Text
  unfolding resolve_secret_path
  get_secret_payload key =
      context "access secret" (service.access (resolve_secret_path cfg key) cfg.project_id)

  unfoldable pub list_secrets : Exec W (Dict Secret)
  unfolding collect
  list_secrets =
      service.search cfg.project_id cfg.root_folder >>= λ secrets. lift (collect cfg secrets [])

  abbrev pub cloudru_provider : Provider W
  cloudru_provider = record {
    definition = record {
      name = codes "Cloud.ru Secret Manager";
      links = record {
        doc = codes "https://cloud.ru/docs/scsm/ug/index";
        manager =
            codes "https://console.cloud.ru/spa/secret-manager/list?projectId="
            ++ service.query_escape cfg.project_id;
      };
    };
    create_secret = create_secret;
    get_secret_payload = get_secret_payload;
    list_secrets = list_secrets;
  }
