-- ===== src/Sync/Load.antt =====
-- step1_load_swarm_state.go and step2_load_external_state.go. The log lines are left out.
use cloud_secrets.Prelude.Exec.{context, ◌>>=◌}
use cloud_secrets.Sync.Payload.{Synchronizer, Step, call, modify}

unfoldable pub load_swarm_state : {W : Type 0} → Synchronizer W → Step W
load_swarm_state s = do
  services ← context "list services" (call s.engine.list_services)
  swarm_secrets_map ← context "list engine secrets" (call s.engine.map_secrets)
  modify λ p. record p { services = services; swarm_secrets_map = swarm_secrets_map }

unfoldable pub load_external_state : {W : Type 0} → Synchronizer W → Step W
load_external_state s = do
  external_secrets ←
      context "list secrets in external storage" (call s.secret_provider.list_secrets)
  modify λ p. record p { external_secrets = external_secrets }
