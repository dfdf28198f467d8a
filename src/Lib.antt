-- ===== src/Lib.antt =====
-- Verification library of cloud-secrets, a service that keeps the secrets of a Docker Swarm in step
-- with an external secret manager (Cloud.ru Secret Manager or HashiCorp Vault).
--
-- The program. A run of the synchronizer (internal/sync) reads the services and secrets of the Swarm
-- through the engine client (internal/engine) and the secrets of the manager through a provider
-- (internal/providers), and compares the versions. A missing secret is created. A secret with a new
-- version gets a new Swarm secret, the services that use it are queued, updated one after the other,
-- the old versions are removed, and the parent is created anew under its plain name. At the end the
-- orphans, which neither a service nor the manager knows, may be removed. The application
-- (internal/application/cs) runs the synchronizer on a schedule and on demand, one run at a time, and
-- the gRPC service (internal/api) offers runs, creation of secrets, and information.
--
-- The model. Code that calls other systems or changes state is a function of a world, `Exec W A`, that
-- returns a result, an error or a panic beside the changed world (Prelude/Exec, Prelude/Errors). The
-- world is abstract: the Docker API, the APIs of the managers, the clock, `uuid.NewString` and the
-- pipeline runner gopipe are parameters, with what the program relies on as named hypotheses. A nil
-- pointer that is dereferenced is a panic, so that the theorems can speak of it. A Go map is an
-- association list in any order (Prelude/Dict), a Go string its bytes (Prelude/Bytes, Strings). Log
-- lines, durations and the wording of formatted messages are left out.
--
--   Prelude             shared names, tests, lists, texts, dictionaries, errors, actions, invariants
--   Strings             packages strings, sort, utf8 and strconv, as far as they are used
--   Engine              internal/engine/client.go, ref.go: the data and the interface of the engine
--   Engine/Docker       internal/engine/docker.go, docker_service.go: the client over the Docker API
--   SecretName          internal/secretname
--   Metrics             internal/metrics/secrets.go
--   Providers/Contracts internal/providers/contracts/provider.go
--   Providers/Metered   internal/providers/contracts/metrics_decorator.go, internal/metrics/provider.go
--   Providers/Cloudru   internal/providers/cloudru: secret.go, config.go, iam.go, endpoints.go, and
--                       the constructor of provider.go in its child Connect
--   Providers/Vault     internal/providers/vault: provider.go, secret_path.go, config.go
--   Providers/Vault/Tree the scan of ListSecrets as a step relation over a tree of folders and documents
--   Providers/Vault/Api internal/providers/vault/api: client, writes, roles, login; the constructors are in
--                       Providers/Vault/Connect
--   Sync/Payload        internal/sync/payload.go: what a run carries from step to step
--   Sync/Load           step1_load_swarm_state.go, step2_load_external_state.go
--   Sync/Process        step3_process_secrets.go, with the queues of services in Sync/Enqueue;
--                       its child Mirror has the plain program that the step implements
--   Sync/Apply          step4_apply_service_updates.go
--   Sync/Remove         step5_remove_old_secret_versions.go; its child Gone puts it over the Docker client
--   Sync/Restore        step6_restore_parent_secrets.go
--   Sync/Cleanup        step7_cleanup_orphaned_secrets.go and the orphans of payload.go
--   Sync/Pipeline       synchronizer.go: the steps in order, and Sync; its children
--                       speak of whole runs
--   Sync/Frame          what the steps behind the processing leave alone
--   Sync/Counters       the invariant that ties the result of a run to the metrics
--   Configuration       internal/config and the choice of internal/providers/factory.go
--   Cli                 internal/application/cli: vault.go, ls.go, sync.go, app.go, framework, with
--                       the commands as scripts (Cli/Scripts) and the table of ls (Cli/Table)
--   Application         internal/application/cs/app.go, internal/metrics/syncs.go; its children have
--                       the loop of Run and the requests beside it (Loop), the constructor and Close (Setup),
--                       the process from the loop down to the clients (Setup/InStep), and
--                       advanceNextSyncAt step by step under many callers (Contention)
--   Api                 internal/api/api.go
--   Service             Create of the service, over the metered provider, over Vault: one composition
--   GrpcServer, Main    internal/grpcserver/server.go, cmd/cloud-secrets/main.go
--   Tests               worlds in memory, runs of the model, and the theorems at concrete inputs
--
-- State and operations. The payload of a run is the record SyncPayload, and a step is an action on
-- SyncState, which holds the payload, the metrics and the world. Each Go method has a definition of
-- its name in snake case; a loop is a recursive definition of its own, and the branches behind a
-- lookup are a helper by clauses. Where Go writes through a pointer that a map or a queue shares, the
-- model writes to the map, and the comment at the definition says why no other alias is read.
--
-- Bounds and fuel. The loop over write attempts of the Vault client counts down from its constant 3.
-- The decimal digits of a number n are computed with n + 1 steps, and each step takes a digit. Times
-- are natural numbers of nanoseconds from the zero time; durations wrap at 64 bits (Prelude/Time), and the counts of
-- a response at 32. The scan of the Vault provider has an argument that bounds its passes, and its child
-- module Listing states how many are enough; where
-- Providers/Vault/Connect gives it a bound, a scan that exhausts it is a crash, which stands for a scan
-- that goes on. All other loops are over lists. gopipe retries a step as often as its option says;
-- what the theorems need of it is the record IsPipeline, and Tests/Pipeline has a runner that is one.
--
-- Not modelled: the registration of metrics with Prometheus (internal/metrics/group.go, docker.go,
-- build_info.go), the health HTTP server and the options of gRPC, which only call their libraries; the
-- parse of the environment, which a foreign package does and whose results are arguments; the drawing
-- of the terminal; the generated code and the mocks. Timers, channels, signals and requests are modelled as
-- events in any order (Application/Loop), in which a run is a start and an end with other events in
-- between.
pub mod Prelude
pub mod Strings
pub mod SecretName
pub mod Engine
pub mod Providers
pub mod Metrics
pub mod Sync
pub mod Application
pub mod Api
pub mod GrpcServer
pub mod Main
pub mod Service
pub mod Cli
pub mod Configuration
mod Tests
