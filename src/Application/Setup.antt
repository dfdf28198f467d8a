-- ===== src/Application/Setup.antt =====
-- NewApplication, Close and the accessors of internal/application/cs/app.go.
pub mod InStep
use cloud_secrets.Prelude.{ℕ, Option, none, some, List, Text}
use cloud_secrets.Prelude.Exec.{Exec, pure, ◌>>=◌, context}
use cloud_secrets.Engine.Docker.{DockerApi, docker_client}
use cloud_secrets.Providers.Contracts.{Provider}
use cloud_secrets.Providers.Metered.{Metered}
use cloud_secrets.Configuration
use cloud_secrets.Configuration.{Settings}
use cloud_secrets.Metrics.{Secrets}
use cloud_secrets.Sync.Payload.{Synchronizer, Step}
use cloud_secrets.Sync.Pipeline.{PipelineStep, SyncReturn, sync}
use cloud_secrets.Application.{Application}

-- The parts of an application that do not change.
pub record Parts (W : Type 0) : Type 0 where
  pub settings : Settings
  pub secret_provider : Provider (Metered W)
  pub synchronizer : Synchronizer (Metered W)

-- `new_docker` is `dock.New`, and the two constructors are those of the providers.
module _ {W : Type 0} (new_docker : Exec W (DockerApi (Metered W)))
    (new_cloudru new_vault : Exec W (Provider W)) (new_uuid : Exec (Metered W) Text) where
  abbrev assembled : Settings → DockerApi (Metered W) → Provider (Metered W) → Parts W
  assembled cfg docker provider = record {
    settings = cfg;
    secret_provider = provider;
    synchronizer = record {
      engine = docker_client docker;
      secret_provider = provider;
      cleanup_orphaned = cfg.cleanup_orphaned;
      folder_delimiter = cfg.folder_delimiter;
      new_uuid = new_uuid;
    };
  }

  unfoldable pub new_application : Settings → Exec W (Parts W)
  unfolding Configuration.create
  new_application cfg = do
    docker ← context "[main] failed to create docker client" new_docker
    provider ←
        context "create secret provider" (Configuration.create cfg.provider new_cloudru new_vault)
    pure (assembled cfg docker provider)

-- The world of the application: what the clients work on, and the metrics of secrets.
pub record Process (W : Type 0) : Type 0 where
  pub world : W
  pub secrets : Secrets

-- `app.synchronizer.Sync` as the application calls it; `run` is the pipeline runner.
unfoldable pub synchronize :
    {W : Type 0}
    → (List (PipelineStep W) → Step W)
    → Synchronizer W
    → Process W
    → SyncReturn × Process W
unfolding sync
synchronize run s p =
    let (r, st) = sync run s p.world p.secrets in
    (r, record { world = st.world; secrets = st.metrics })

-- LastSyncAt
unfoldable pub last_sync_at : {W : Type 0} → Application W → Option ℕ
last_sync_at app = app.last_sync_at

abbrev stop_if_set : {W : Type 0} → Option (W → W) → W → W
stop_if_set none w = w
stop_if_set (some stop) w = stop w

abbrev close_if_set : {W : Type 0} → Option (Exec W (Unit {0})) → Exec W (Unit {0})
close_if_set none = pure tt
close_if_set (some close_client) = context "close docker client" close_client

-- Close; the ticker is nil before `Run`.
unfoldable pub close :
    {W : Type 0} → Option (W → W) → Option (Exec W (Unit {0})) → Exec W (Unit {0})
close stop_ticker close_docker w = close_if_set close_docker (stop_if_set stop_ticker w)
