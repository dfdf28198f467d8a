-- ===== src/Sync/Process/Mirror.antt =====
-- The processing of the external secrets as a plain program over the world: what is asked of the
-- clients, in which order, and with which arguments.
pub mod Found
pub mod Run
use cloud_secrets.Prelude.{
  String, ◌≡◌, refl, ◌∙◌, Option, none, some, [], ◌∷◌, if◌then◌else◌, Result, ok, err, panic, Text,
}
use cloud_secrets.Prelude.Exec.{Exec, pure, continue, ◌>>=◌, ◌>>◌, wrapped, context}
use cloud_secrets.Prelude.Dict
use cloud_secrets.Prelude.Dict.{Dict}
use cloud_secrets.Strings.{replace_all}
use cloud_secrets.SecretName.{generate}
use cloud_secrets.Engine.{ExistingSecret, CreatingSecret, CreatingSecretVersion}
use cloud_secrets.Providers.Contracts.{Secret}
use cloud_secrets.Sync.Payload.{Synchronizer, SyncState, Step, call}
use cloud_secrets.Sync.Process.{latest_is, marked}

-- What a new secret of the Swarm is made of.
abbrev pub mirrored : Secret → Text → Text → CreatingSecret
mirrored external_secret key value = record {
  path = key;
  value = value;
  description = external_secret.description;
  external_path = external_secret.full_path;
  external_version_id = external_secret.version_id;
}

-- What a new version of a secret is made of.
abbrev pub renewed : Secret → Text → Text → CreatingSecretVersion
renewed external_secret name value = record {
  path = name;
  description = external_secret.description;
  external_id = external_secret.version_id;
  value = value;
}

module _ {W : Type 0} (s : Synchronizer W) where
  abbrev pub mirror_update :
      Dict ExistingSecret → Text → Secret → ExistingSecret → Exec W (Dict ExistingSecret)
  mirror_update secrets key external_secret swarm_secret = do
    value ←
        context "get payload of secret" (s.secret_provider.get_secret_payload external_secret.path)
    name ← generate s.new_uuid external_secret.path s.folder_delimiter external_secret.version_id
    context "create secret version"
        (s.engine.create_secret_version swarm_secret (renewed external_secret name value))
    pure (Dict.insert key (marked swarm_secret) secrets)

  -- A missing secret is created with the payload under the path of the Swarm, a secret in another
  -- version gets a new version and counts as managed from then on, and one in the listed version
  -- costs nothing. The result is what is known of the Swarm behind it.
  abbrev pub mirror_found :
      Dict ExistingSecret → Text → Secret → Option ExistingSecret → Exec W (Dict ExistingSecret)
  mirror_found secrets key external_secret none = do
    value ←
        context "get payload of secret" (s.secret_provider.get_secret_payload external_secret.path)
    context "create secret" (s.engine.create_secret (mirrored external_secret key value))
    pure secrets
  mirror_found secrets key external_secret (some swarm_secret) =
      if latest_is swarm_secret external_secret
      then pure secrets
      else mirror_update secrets key external_secret swarm_secret

  abbrev pub mirror_secret : Dict ExistingSecret → Secret → Exec W (Dict ExistingSecret)
  mirror_secret secrets external_secret =
      let key = replace_all b'/' s.folder_delimiter external_secret.path in
      mirror_found secrets key external_secret (Dict.lookup key secrets)

  -- One external secret after the other, until one fails.
  unfoldable pub mirror : Dict ExistingSecret → Dict Secret → Exec W (Dict ExistingSecret)
  mirror secrets [] = pure secrets
  mirror secrets ((_, external_secret) ∷ rest) =
      mirror_secret secrets external_secret >>= λ secrets'. mirror secrets' rest

-- What a step leaves of the world, and of what it knows of the Swarm.
abbrev pub view : {W : Type 0} → Result (Unit {0}) × SyncState W → Result (Dict ExistingSecret) × W
view (ok _, st) = (ok st.payload.swarm_secrets_map, st.world)
view (err e, st) = (err e, st.world)
view (panic, st) = (panic, st.world)

module _ {W : Type 0} (s : Synchronizer W) where
  -- The step behaves as the program, and leaves the services.
  pub record Mirrors (st : SyncState W) (o : Result (Unit {0}) × SyncState W)
      (p : Result (Dict ExistingSecret) × W) : Type 0 where
    seen : view o ≡ p
    services : o.1.payload.services ≡ st.payload.services

  -- An action on the world, and one on the state that does the same and then goes on alike.
  pub bind-Mirrors :
      {A : Type 0} (r : Result A) (st st' : SyncState W) (f : A → Step W)
      (g : A → Exec W (Dict ExistingSecret))
      → st'.payload.services ≡ st.payload.services
      → ((a : A) → Mirrors st' (f a st') (g a st'.world))
      → Mirrors st (continue r f st') (continue r g st'.world)
  bind-Mirrors (ok a) st st' f g same h =
      let rest = h a in record { seen = rest.seen; services = rest.services ∙ same }
  bind-Mirrors (err e) st st' f g same h = record { seen = refl; services = same }
  bind-Mirrors panic st st' f g same h = record { seen = refl; services = same }

  abbrev pub after : {A : Type 0} → Exec W A → SyncState W → SyncState W
  after m st = record st { world = (m st.world).1 }

  pub call-Mirrors :
      {A : Type 0} (m : Exec W A) (f : A → Step W) (g : A → Exec W (Dict ExistingSecret))
      (st : SyncState W)
      → ((a : A) → Mirrors (after m st) (f a (after m st)) (g a (m st.world).1))
      → Mirrors st ((call m >>= f) st) ((m >>= g) st.world)
  unfolding call ◌>>=◌
  call-Mirrors m f g st h = bind-Mirrors (m st.world).0 st (after m st) f g refl h

  pub context-call-Mirrors :
      {A : Type 0} (w : String) (m : Exec W A) (f : A → Step W)
      (g : A → Exec W (Dict ExistingSecret)) (st : SyncState W)
      → ((a : A) → Mirrors (after m st) (f a (after m st)) (g a (m st.world).1))
      → Mirrors st ((context w (call m) >>= f) st) ((context w m >>= g) st.world)
  unfolding call ◌>>=◌ context
  context-call-Mirrors w m f g st h =
      bind-Mirrors (wrapped w (m st.world).0) st (after m st) f g refl h
