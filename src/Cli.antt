-- ===== src/Cli.antt =====
-- internal/application/cli: the commands of the command line, vault.go in Cli/Vault and
-- Cli/Requests, and ls.go and sync.go here. Printing is left out.
use cloud_secrets.Prelude.Dict.{Dict}
pub mod Vault
pub mod Requests
pub mod Scripts
pub mod Table
use cloud_secrets.Prelude.{List, [], ◌∷◌, Text, codes}
use cloud_secrets.Prelude.Exec.{Exec, pure, ◌>>=◌, ◌>>◌, context}
use cloud_secrets.Prelude.Dict
use cloud_secrets.Engine.{Client, ExistingSecret, latest_version}
use cloud_secrets.Engine.Docker.{DockerApi, get_container_id, sighup_container}

abbrev row : ExistingSecret → List Text
row secret =
    secret.id
    ∷ secret.path
    ∷ secret.external_path
    ∷ (latest_version secret).id
    ∷ (latest_version secret).external_id
    ∷ []

unfoldable pub rows : Dict ExistingSecret → List (List Text)
unfolding latest_version
rows [] = []
rows ((_, secret) ∷ rest) = row secret ∷ rows rest

-- ListCommand.Run: the table that it prints
unfoldable pub run_list : {W : Type 0} → Client W → Exec W (List (List Text))
unfolding rows
run_list docker =
    context "get secrets from swarm" docker.map_secrets >>= λ secrets. pure (rows secrets)

-- SyncCommand.Run
unfoldable pub run_sync : {W : Type 0} → DockerApi W → Exec W (Unit {0})
unfolding get_container_id sighup_container
run_sync docker = do
  id ←
      context "find container id"
        (get_container_id docker (codes "org.opencontainers.image.title=cloud-secrets"))
  context "send SIGHUP to container" (sighup_container docker id)
