-- ===== src/Sync/Apply/Swap.antt =====
-- What swapping the references of a service changes, and what it leaves alone.
use cloud_secrets.Prelude.{◌≡◌, refl, Option, none, some, List, [], ◌∷◌, map, Text, arith}
use cloud_secrets.Prelude.Dict
use cloud_secrets.Prelude.Dict.{Dict}
use cloud_secrets.Engine.{SecretReference}
use cloud_secrets.Sync.Payload.{UpdatingServiceSecret}
use cloud_secrets.Sync.Apply.{swap_reference, swap_references}

-- No secret that the task puts in is itself to be replaced.
abbrev pub IsSettled : Dict UpdatingServiceSecret → Type 0
IsSettled secrets =
    (id : Text) (new : UpdatingServiceSecret)
    → Dict.lookup id secrets ≡ some new
    → Dict.lookup new.id secrets ≡ none

-- Swapping keeps the number, the order and the mounted files of the references.
pub map-file-swap_references :
    (secrets : Dict UpdatingServiceSecret) (refs : List SecretReference)
    → map (λ ref. ref.file) (swap_references secrets refs) ≡ map (λ ref. ref.file) refs
unfolding swap_references
map-file-swap_references secrets [] = refl
map-file-swap_references secrets (ref ∷ refs) =
    ground (arith, map-file-swap_references secrets refs)

swap_reference_twice :
    (secrets : Dict UpdatingServiceSecret) (ref : SecretReference)
    (o : Option UpdatingServiceSecret)
    → IsSettled secrets
    → Dict.lookup ref.secret_id secrets ≡ o
    → swap_reference (Dict.lookup (swap_reference o ref).secret_id secrets) (swap_reference o ref)
      ≡ swap_reference o ref
swap_reference_twice secrets ref none settled found = rw found
swap_reference_twice secrets ref (some new) settled found = rw (settled ref.secret_id new found)

-- A second swap, such as that of a retried update, changes nothing more, if no secret that the
-- task puts in is itself to be replaced.
pub swap_references_idem :
    (secrets : Dict UpdatingServiceSecret) (refs : List SecretReference)
    → IsSettled secrets
    → swap_references secrets (swap_references secrets refs) ≡ swap_references secrets refs
unfolding swap_references
swap_references_idem secrets [] settled = refl
swap_references_idem secrets (ref ∷ refs) settled =
    cc (swap_reference_twice secrets ref _ settled refl, swap_references_idem secrets refs settled)
