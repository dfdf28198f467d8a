-- ===== src/Sync/Counters/Steps.antt =====
-- Every step keeps the agreement of the result with the metrics.
use cloud_secrets.Prelude.{Option, none, some, [], ◌∷◌, Text, arith}
use cloud_secrets.Prelude.Dict.{Dict}
use cloud_secrets.Prelude.Exec.Keeps.{Keeps, Keeps-bind, Keeps-pure, Keeps-if}
use cloud_secrets.Engine.{ExistingSecret}
use cloud_secrets.Providers.Contracts.{Secret}
use cloud_secrets.Metrics.{Secrets}
use cloud_secrets.Sync.Payload.{step_actions, Synchronizer}
use cloud_secrets.Sync.Load.{load_external_state}
use cloud_secrets.Sync.Process.{
  queue_update, create_missing_secret, skip_same_version, create_updated_secret_version,
  process_found, latest_is, process_external_secret, process_secrets, process_external_secrets,
}
use cloud_secrets.Sync.Frame.{IsFrame}
use cloud_secrets.Sync.Counters.{Agrees}

module _ {W : Type 0} (s : Synchronizer W) {base : Secrets} where
  pub load_external_state-Agrees : Keeps (Agrees base) (load_external_state s)
  unfolding load_external_state step_actions
  load_external_state-Agrees = record { at = λ st h. ground arith }

  create_missing_secret-Agrees :
      (external_secret : Secret) (path : Text)
      → Keeps (Agrees base) (create_missing_secret s external_secret path)
  unfolding create_missing_secret step_actions
  create_missing_secret-Agrees external_secret path = record { at = λ st h. ground arith }

  skip_same_version-Agrees :
      (swarm_secret : ExistingSecret) → Keeps (Agrees base) (skip_same_version s swarm_secret)
  unfolding skip_same_version step_actions
  skip_same_version-Agrees swarm_secret = record { at = λ st h. ground arith }

  create_updated_secret_version-Agrees :
      (key : Text) (external_secret : Secret) (swarm_secret : ExistingSecret)
      → Keeps (Agrees base) (create_updated_secret_version s key external_secret swarm_secret)
  unfolding create_updated_secret_version queue_update step_actions
  create_updated_secret_version-Agrees key external_secret swarm_secret = record {
    at = λ st h. ground arith;
  }

  process_found-Agrees :
      (key : Text) (external_secret : Secret) (o : Option ExistingSecret)
      → Keeps (Agrees base) (process_found s key external_secret o)
  process_found-Agrees key external_secret none = create_missing_secret-Agrees external_secret key
  process_found-Agrees key external_secret (some swarm_secret) =
      Keeps-if (latest_is swarm_secret external_secret) (skip_same_version-Agrees swarm_secret)
        (create_updated_secret_version-Agrees key external_secret swarm_secret)

  process_external_secret-Agrees :
      (external_secret : Secret) → Keeps (Agrees base) (process_external_secret s external_secret)
  unfolding process_external_secret
  process_external_secret-Agrees external_secret = record {
    at = λ st h. (process_found-Agrees _ external_secret _).at st h;
  }

  process_secrets-Agrees : (secrets : Dict Secret) → Keeps (Agrees base) (process_secrets s secrets)
  unfolding process_secrets
  process_secrets-Agrees [] = Keeps-pure tt
  process_secrets-Agrees ((_, external_secret) ∷ rest) =
      Keeps-bind _ _ (process_external_secret-Agrees external_secret)
        (λ _. process_secrets-Agrees rest)

  pub process_external_secrets-Agrees : Keeps (Agrees base) (process_external_secrets s)
  unfolding process_external_secrets
  process_external_secrets-Agrees = record {
    at = λ st h. (process_secrets-Agrees st.payload.external_secrets).at st h;
  }

-- The steps behind the processing change the counts of removals alone, in both places.
pub Agrees-IsFrame : {W : Type 0} {base : Secrets} → IsFrame {W = W} (Agrees base)
unfolding step_actions
Agrees-IsFrame = record {
  of_call = λ A m. record { at = λ st h. ground arith };
  of_load = λ services secrets. record { at = λ st h. ground arith };
  of_store = λ id task. record { at = λ st h. ground arith };
  of_advance = record { at = λ st h. ground arith };
  of_removal = λ is_parent. record { at = λ st h. ground arith };
}
