-- ===== src/GrpcServer.antt =====
-- internal/grpcserver/server.go: the server of the gRPC services with its health server, which are
-- foreign, as the listener is.
use cloud_secrets.Prelude.{
  Bool, [], if◌then◌else◌, Error, wrap, Result, ok, err, panic, Text, codes,
}
use cloud_secrets.Prelude.Exec.{Exec, ◌>>=◌, context}

-- grpc_health_v1.HealthCheckResponse_ServingStatus, as far as it is set
pub data ServingStatus : Type 0 where
  serving : ServingStatus

-- The names of the services, the generated `ServiceName`
abbrev pub controller_service : Text
controller_service = codes "swarm_deploy.cloud_secrets.Controller"

abbrev pub secrets_service : Text
secrets_service = codes "swarm_deploy.cloud_secrets.Secrets"

-- The listener at the address of the server, the methods of `grpc.Server` and `health.Server`, and
-- `errors.Is` at `grpc.ErrServerStopped`. `serve_on` returns when the server is stopped.
pub record Servers (W Listener : Type 0) : Type 0 where
  pub listen : Exec W Listener
  pub set_serving_status : Text → ServingStatus → W → W
  pub shutdown : W → W
  pub serve_on : Listener → Exec W (Unit {0})
  pub graceful_stop : W → W
  pub stop : W → W
  pub is_server_stopped : Error → Bool

-- What the select of `Stop` sees first: the graceful stop, or the end of the context.
pub data FirstDone : Type 0 where
  graceful : FirstDone
  context_done : Error → FirstDone

module _ {W Listener : Type 0} (s : Servers W Listener) where
  abbrev pub all_serving : W → W
  all_serving w =
      s.set_serving_status secrets_service serving
        (s.set_serving_status controller_service serving (s.set_serving_status [] serving w))

  -- That the server was stopped is no failure of `Serve`.
  abbrev pub served : Result (Unit {0}) → Result (Unit {0})
  served (ok _) = ok tt
  served (err e) = if s.is_server_stopped e then ok tt else err (wrap "serve gRPC API" e)
  served panic = panic

  unfoldable pub serve : Listener → Exec W (Unit {0})
  serve listener w = let (r, w') = s.serve_on listener (all_serving w) in (served r, w')

  -- Server.Run
  unfoldable pub run_server : Exec W (Unit {0})
  unfolding serve
  run_server = context "listen on gRPC address" s.listen >>= serve

  -- Server.Stop
  unfoldable pub stop_server : FirstDone → Exec W (Unit {0})
  stop_server graceful w = (ok tt, s.graceful_stop (s.shutdown w))
  stop_server (context_done e) w =
      (err (wrap "gracefully stop gRPC server" e), s.stop (s.shutdown w))
