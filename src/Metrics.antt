-- ===== src/Metrics.antt =====
-- internal/metrics/secrets.go: the counters of the secrets' life cycle. The foreign Prometheus
-- counter is the number that it counts.
use cloud_secrets.Prelude.{ℕ, ◌+◌}

pub record Secrets : Type 0 where
  pub created : ℕ
  pub removed_secrets : ℕ
  pub removed_versions : ℕ
  pub updated : ℕ

abbrev pub inc_created : Secrets → Secrets
inc_created m = record m { created = m.created + 1 }

abbrev pub inc_removed_secrets : Secrets → Secrets
inc_removed_secrets m = record m { removed_secrets = m.removed_secrets + 1 }

abbrev pub inc_removed_versions : Secrets → Secrets
inc_removed_versions m = record m { removed_versions = m.removed_versions + 1 }

abbrev pub inc_updated : Secrets → Secrets
inc_updated m = record m { updated = m.updated + 1 }
