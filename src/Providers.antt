-- ===== src/Providers.antt =====
-- internal/providers: the secret managers.
pub mod Contracts
pub mod Grpc
pub mod Metered
pub mod Paths
pub mod Cloudru
pub mod Vault
