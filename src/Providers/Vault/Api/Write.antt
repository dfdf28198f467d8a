-- ===== src/Providers/Vault/Api/Write.antt =====
-- What `CreateSecretKey` writes, under concurrent writers.
use cloud_secrets.Prelude.{
  ℕ, zero, suc, ◌≡◌, refl, ◌∙◌, inl, inr, Bool, true, false, none, some, [], arith, if◌then◌else◌,
  Option-cases, Error, Result, ok, err, panic, Text, ◌==◌,
}
use cloud_secrets.Prelude.Exec.{Exec, pure, fail, crash, continue, ◌>>=◌}
use cloud_secrets.Prelude.Dict
use cloud_secrets.Prelude.Dict.{Dict}
use cloud_secrets.Strings.Trim.{trim_slashes}
use cloud_secrets.Providers.Vault.Api.{
  VaultApi, KvSecret, Value, text, attempt, create_secret_key, data_of_read, secret_data_for_create,
  after_put, create_secret_key_attempts,
}

-- A document as Vault keeps it: its current version, which is 0 where there is none, and its data.
pub record Document : Type 0 where
  pub version : ℕ
  pub fields : Dict Value

module _ {W : Type 0} (vault : VaultApi W) (document : W → Text → Document) where
  -- The documented behaviour of KV v2: a version is written once, so that a read that returned the
  -- version at which the document stands has returned its data, and one that found nothing did not
  -- miss a document of version 0; a check-and-set write succeeds only over its version. Other
  -- clients may write while a read or a failing write is under way.
  pub record IsVersioned : Type 0 where
    pub read :
        (w : W) (path : Text) (secret : KvSecret) (version : ℕ)
        → (vault.get path w).0 ≡ ok secret
        → secret.version ≡ some version
        → (document (vault.get path w).1 path).version ≡ version
        → (document (vault.get path w).1 path).fields ≡ secret.fields
    pub missing :
        (w : W) (path : Text) (e : Error)
        → (vault.get path w).0 ≡ err e
        → vault.is_not_found e ≡ true
        → (document (vault.get path w).1 path).version ≡ 0
        → (document (vault.get path w).1 path).fields ≡ []
    pub written :
        (w : W) (path : Text) (fields : Dict Value) (cas : ℕ) (secret : KvSecret)
        → (vault.put path fields (some cas) w).0 ≡ ok secret
        → ((document w path).version ≡ cas)
          × ((document (vault.put path fields (some cas) w).1 path).fields ≡ fields)

  -- The write from `before` to `after` found the document without the key, and left it with the
  -- key and nothing else changed.
  pub record AddsKey (path key value : Text) (before after : W) : Type 0 where
    pub cas : ℕ
    pub absent : Dict.lookup key (document before path).fields ≡ none
    pub added :
        (document after path).fields ≡ Dict.insert key (text value) (document before path).fields
    pub wrote : (vault.put path (document after path).fields (some cas) before).1 ≡ after

  -- If the document still stands at the version that was read, then it lacks the key, and what is
  -- to be written adds it.
  record IsPlanned (w : W) (path key value : Text) (plan : Dict Value × ℕ) : Type 0 where
    pub absent :
        (document w path).version ≡ plan.1 → Dict.lookup key (document w path).fields ≡ none
    pub added :
        (document w path).version ≡ plan.1
        → plan.0 ≡ Dict.insert key (text value) (document w path).fields

  module _ (laws : IsVersioned) (path key value : Text) where
    read-IsPlanned :
        (w : W) (r : Result KvSecret) (plan : Dict Value × ℕ)
        → (vault.get path w).0 ≡ r
        → data_of_read vault key value r ≡ ok plan
        → IsPlanned (vault.get path w).1 path key value plan
    unfolding Dict.has Dict.insert Dict.lookup
    read-IsPlanned w (ok secret) plan e h = elim (Option-cases secret.version) [
      | inl no_version ↦ absurd (ground arith)
      | inr (version, known) ↦
          let same = laws.read w path secret version e known in
          record { absent = λ at. ground arith; added = λ at. ground arith }
    ]
    read-IsPlanned w (err x) plan e h =
        let same = laws.missing w path x e in
        record { absent = λ at. ground arith; added = λ at. ground arith }
    read-IsPlanned w panic plan e h = cc

    abbrev Adds : Exec W (Unit {0}) → W → Type 0
    Adds m w = (m w).0 ≡ ok tt → (before : W) × AddsKey path key value before (m w).1

    retry-Adds :
        (b : Bool) (next : Exec W (Unit {0})) (x : Error) (w : W)
        → Adds next w
        → Adds (if b then fail x else next) w
    unfolding fail
    retry-Adds true next x w ih h = cc
    retry-Adds false next x w ih h = ih h

    -- The write of a plan: success in this attempt, or in a later one.
    put-Adds :
        (next : Exec W (Unit {0})) (w : W) (plan : Dict Value × ℕ) (r : Result KvSecret)
        → IsPlanned w path key value plan
        → (vault.put path plan.0 (some plan.1) w).0 ≡ r
        → ((later : W) → Adds next later)
        → Adds (after_put vault next r) (vault.put path plan.0 (some plan.1) w).1
    unfolding pure crash
    put-Adds next w plan (ok secret) planned e ih h =
        let wrote = laws.written w path plan.0 plan.1 secret e in
        (
          w,
          record {
            cas = plan.1;
            absent = planned.absent wrote.0;
            added = wrote.1 ∙ planned.added wrote.0;
            wrote = rw wrote.1 refl;
          },
        )
    put-Adds next w plan (err x) planned e ih h = retry-Adds _ next _ _ (ih _) h
    put-Adds next w plan panic planned e ih h = cc

    -- An attempt from what the read has planned.
    planned-Adds :
        (left : ℕ) (w : W) (r : Result (Dict Value × ℕ))
        → ((plan : Dict Value × ℕ) → r ≡ ok plan → IsPlanned w path key value plan)
        → ((later : W) → Adds (attempt vault left path key value) later)
        → Adds
            (continue r (λ plan. λ w.
              after_put vault
                (attempt vault left path key value)
                (vault.put path plan.0 (some plan.1) w).0
                (vault.put path plan.0 (some plan.1) w).1))
            w
    planned-Adds left w (ok plan) planned ih h =
        put-Adds (attempt vault left path key value) w plan _ (planned plan refl) refl ih h
    planned-Adds left w (err x) planned ih h = cc
    planned-Adds left w panic planned ih h = cc

    attempt-Adds : (left : ℕ) (w : W) → Adds (attempt vault left path key value) w
    unfolding attempt secret_data_for_create ◌>>=◌ fail
    attempt-Adds zero w h = cc
    attempt-Adds (suc left) w h =
        planned-Adds left _ _ (λ plan e. read-IsPlanned w _ plan refl e) (attempt-Adds left) h

  -- If the KV engine behaves as documented, a key that was created was added by the last write to
  -- a document that did not have it, and that write lost none of the other keys, whatever other
  -- clients wrote between the calls.
  pub create_secret_key_adds :
      IsVersioned
      → (path key value : Text) (w : W) → (create_secret_key vault path key value w).0 ≡ ok tt
      → (before : W) × AddsKey
          (trim_slashes path)
          key
          value
          before
          (create_secret_key vault path key value w).1
  unfolding create_secret_key fail
  create_secret_key_adds laws path key value w h =
      let trimmed = trim_slashes path in
      retry-Adds laws trimmed key value (trimmed == []) _ _ w
        (retry-Adds laws trimmed key value (key == []) _ _ w
          (attempt-Adds laws trimmed key value (create_secret_key_attempts vault) w))
        h
