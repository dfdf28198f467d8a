-- ===== src/Main.antt =====
-- cmd/cloud-secrets/main.go: the start of the service, or of the command line. An error that `main`
-- reports before it exits with status 1 is the error of the action. The log is left out.
use cloud_secrets.Prelude.{not, List, [], ◌∷◌, ◌++◌, if◌then◌else◌, ok, Text, codes, ◌==◌}
use cloud_secrets.Prelude.Exec.{Exec, ◌>>=◌, ◌>>◌}
use cloud_secrets.Configuration.{Settings}

-- entrypoint.Entrypoint, by what the program tells apart.
pub data Entrypoint : Type 0 where
  application health_server grpc_server : Entrypoint

-- What the start calls: the configuration, the registration of the metrics and those of gopipe, the
-- user agent of gRPC clients, the metric of the build, the application, and `entrypoint.Run`, which
-- serves until the end.
pub record Launch (W App : Type 0) : Type 0 where
  pub load_config : Exec W Settings
  pub register_metrics : Exec W (Unit {0})
  pub register_pipeline_metrics : Exec W (Unit {0})
  pub set_user_agent : Text → W → W
  pub set_build_info : Text → Text → W → W
  pub new_application : Settings → Exec W App
  pub run_entrypoints : App → List Entrypoint → Exec W (Unit {0})

abbrev pub main_version : Text
main_version = codes "v0.1.0"

abbrev pub main_build_date : Text
main_build_date = codes "2026-04-22 20:46:00"

-- The gRPC server stands among the entry points only if it has an address.
unfoldable pub entrypoints : Settings → List Entrypoint
entrypoints cfg =
    application ∷ health_server ∷ (if not (cfg.grpc_addr == []) then grpc_server ∷ [] else [])

module _ {W App : Type 0} (launch : Launch W App) where
  abbrev announced : Exec W (Unit {0})
  announced w = (
    ok tt,
    launch.set_build_info main_version main_build_date
        (launch.set_user_agent (codes "cloud-secrets/" ++ main_version) w),
  )

  -- runCloudSecrets
  unfoldable pub run_cloud_secrets : Exec W (Unit {0})
  unfolding entrypoints
  run_cloud_secrets = do
    cfg ← launch.load_config
    launch.register_metrics
    launch.register_pipeline_metrics
    announced
    app ← launch.new_application cfg
    launch.run_entrypoints app (entrypoints cfg)

  -- main, by the arguments behind the name of the program
  unfoldable pub main : Exec W (Unit {0}) → List Text → Exec W (Unit {0})
  unfolding run_cloud_secrets
  main run_cli [] = run_cloud_secrets
  main run_cli (argument ∷ arguments) = run_cli
