-- ===== src/Sync/Process/Mirror/Run.antt =====
-- The loop of processExternalSecrets is the program run over the whole list.
use cloud_secrets.Prelude.{◌≡◌, refl, sym, ap, ◌∙◌, false, [], ◌∷◌, any, Result, ok, err, panic}
use cloud_secrets.Prelude.Exec.{Exec, pure, continue, ◌>>=◌, ◌>>◌}
use cloud_secrets.Prelude.Dict.{Dict}
use cloud_secrets.Engine.{ExistingSecret}
use cloud_secrets.Providers.Contracts.{Secret}
use cloud_secrets.Sync.Payload.{Synchronizer, SyncState, Step}
use cloud_secrets.Sync.Enqueue.Crash.{has_no_container}
use cloud_secrets.Sync.Process.{
  prepare_secret_path, process_external_secret, process_secrets, process_external_secrets,
}
use cloud_secrets.Sync.Process.Mirror.{mirror_secret, mirror, view, Mirrors}
use cloud_secrets.Sync.Process.Mirror.Found.{process_found-Mirrors}

module _ {W : Type 0} (s : Synchronizer W) where
  continue-Mirrors :
      (o : Result (Unit {0}) × SyncState W) (rest : Step W)
      (k : Dict ExistingSecret → Exec W (Dict ExistingSecret)) (st : SyncState W)
      → o.1.payload.services ≡ st.payload.services
      → ((st' : SyncState W)
          → st'.payload.services ≡ st.payload.services
          → Mirrors s st' (rest st') (k st'.payload.swarm_secrets_map st'.world))
      → Mirrors s st (continue o.0 (λ _. rest) o.1) (continue (view o).0 k (view o).1)
  continue-Mirrors (ok _, st') rest k st same h =
      let next = h st' same in record { seen = next.seen; services = next.services ∙ same }
  continue-Mirrors (err e, st') rest k st same h = record { seen = refl; services = same }
  continue-Mirrors (panic, st') rest k st same h = record { seen = refl; services = same }

  then-Mirrors :
      (m : Step W) (g : Exec W (Dict ExistingSecret)) (rest : Step W)
      (k : Dict ExistingSecret → Exec W (Dict ExistingSecret)) (st : SyncState W)
      → Mirrors s st (m st) (g st.world)
      → ((st' : SyncState W)
          → st'.payload.services ≡ st.payload.services
          → Mirrors s st' (rest st') (k st'.payload.swarm_secrets_map st'.world))
      → Mirrors s st ((m >> rest) st) ((g >>= k) st.world)
  unfolding ◌>>=◌
  then-Mirrors m g rest k st first h =
      rw (sym first.seen) (continue-Mirrors (m st) rest k st first.services h)

  process_secrets-Mirrors :
      (external_secrets : Dict Secret) (st : SyncState W)
      → any has_no_container st.payload.services ≡ false
      → Mirrors s st
          (process_secrets s external_secrets st)
          (mirror s st.payload.swarm_secrets_map external_secrets st.world)
  unfolding process_secrets process_external_secret prepare_secret_path mirror pure
  process_secrets-Mirrors [] st containers = record { seen = refl; services = refl }
  process_secrets-Mirrors ((_, external_secret) ∷ rest) st containers =
      then-Mirrors _ (mirror_secret s st.payload.swarm_secrets_map external_secret) _ _ st
        (process_found-Mirrors s _ external_secret _ st containers)
        (λ st' same. process_secrets-Mirrors rest st' (ap (any has_no_container) same ∙ containers))

  -- While every service has a container spec, processing the external secrets answers, and asks of
  -- the clients, what the plain program `mirror` does: the same result or the same error, the same
  -- world behind it, and on success the same knowledge of the secrets of the Swarm.
  pub process_external_secrets-mirror :
      (st : SyncState W)
      → any has_no_container st.payload.services ≡ false
      → view (process_external_secrets s st)
        ≡ mirror s st.payload.swarm_secrets_map st.payload.external_secrets st.world
  unfolding process_external_secrets
  process_external_secrets-mirror st containers =
      (process_secrets-Mirrors st.payload.external_secrets st containers).seen
