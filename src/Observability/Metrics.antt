-- ===== src/Observability/Metrics.antt =====
-- internal/observability/metrics.go: the six vectors of Prometheus, and their registration once per
-- process. The registry is a parameter.
use Prim.Native.String.{◌++◌ as str_append}
use shop_catalog_service.Common.{
  ◌||◌, ℕ, zero, suc, ◌≡◌, String, Bool, true, false, Option, none, some, List, [], ◌∷◌, str_eq,
  if◌then◌else◌,
}
use shop_catalog_service.Exec.{Result, ok, err, panic, Exec, pure, ◌>>◌}

pub data Kind : Type 0 where
  counter histogram : Kind

-- A vector with its options and its labels; every histogram has the default buckets.
pub record Vec : Type 0 where
  pub kind : Kind
  pub namespace : String
  pub subsystem : String
  pub name : String
  pub help : String
  pub labels : List String

-- Metrics
pub record Metrics : Type 0 where
  pub catalog_requests_total : Vec
  pub catalog_request_duration : Vec
  pub grpc_requests_total : Vec
  pub grpc_request_duration : Vec
  pub cache_requests_total : Vec
  pub cache_request_duration : Vec

-- The composite literal of newMetrics.
abbrev pub metrics : Metrics
metrics = record {
  catalog_requests_total = record {
    kind = counter;
    namespace = "catalog";
    subsystem = "service";
    name = "requests_total";
    help = "Total number of catalog service requests.";
    labels = "method" ∷ "status" ∷ [];
  };
  catalog_request_duration = record {
    kind = histogram;
    namespace = "catalog";
    subsystem = "service";
    name = "request_duration_seconds";
    help = "Catalog service request duration in seconds.";
    labels = "method" ∷ [];
  };
  grpc_requests_total = record {
    kind = counter;
    namespace = "catalog";
    subsystem = "grpc";
    name = "requests_total";
    help = "Total number of gRPC requests handled by catalog transport.";
    labels = "method" ∷ "code" ∷ [];
  };
  grpc_request_duration = record {
    kind = histogram;
    namespace = "catalog";
    subsystem = "grpc";
    name = "request_duration_seconds";
    help = "gRPC request duration in seconds for catalog transport.";
    labels = "method" ∷ [];
  };
  cache_requests_total = record {
    kind = counter;
    namespace = "catalog";
    subsystem = "cache";
    name = "requests_total";
    help = "Total number of cache requests.";
    labels = "method" ∷ "result" ∷ [];
  };
  cache_request_duration = record {
    kind = histogram;
    namespace = "catalog";
    subsystem = "cache";
    name = "request_duration_seconds";
    help = "Cache request duration in seconds.";
    labels = "method" ∷ "operation" ∷ [];
  };
}

abbrev pub vectors : Metrics → List Vec
vectors m =
    m.catalog_requests_total ∷ m.catalog_request_duration ∷ m.grpc_requests_total
    ∷ m.grpc_request_duration ∷ m.cache_requests_total ∷ m.cache_request_duration ∷ []

-- prometheus.MustRegister over the default registry's state: it panics where Register fails.
pub record Registry (G : Type 0) : Type 0 where
  pub must_register : List Vec → Exec G (Unit {0})

-- metricsOnce and metricsInstance, with the registry.
pub record MetricsState (G : Type 0) : Type 0 where
  pub done : Bool
  pub instance_of : Option Metrics
  pub registry : G

abbrev pub unset : {G : Type 0} → G → MetricsState G
unset g = record { done = false; instance_of = none; registry = g }

-- What sets a vector's name apart in a registry: the three parts joined by underscores.
abbrev pub full_name : Vec → String
full_name v =
    str_append v.namespace (str_append "_" (str_append v.subsystem (str_append "_" v.name)))

-- The full names are not taken, and differ from one another.
abbrev pub AllFree : (String → Bool) → List Vec → Type 0
AllFree taken [] = Unit
AllFree taken (v ∷ vs) =
    (taken (full_name v) ≡ false) × AllFree (λ k. str_eq (full_name v) k || taken k) vs

-- A registry takes vectors whose full names are free.
pub record IsRegistry {G : Type 0} (registry : Registry G) (taken : G → String → Bool)
    : Type 0 where
  pub registers :
      (vs : List Vec) (g : G) → AllFree (taken g) vs → (registry.must_register vs g).0 ≡ ok tt

module _ {G : Type 0} (registry : Registry G) where
  -- newMetrics
  new_metrics : Exec G Metrics
  new_metrics = registry.must_register (vectors metrics) >> pure metrics

  -- What the function that Do calls leaves; where it panics, Do counts as done, and the instance
  -- stays nil.
  initialised : Result Metrics × G → Result (Option Metrics) × MetricsState G
  initialised (ok m, g) = (ok (some m), record { done = true; instance_of = some m; registry = g })
  initialised (err e, g) = (panic, record { done = true; instance_of = none; registry = g })
  initialised (panic, g) = (panic, record { done = true; instance_of = none; registry = g })

  -- MustMetrics; a nil instance is `none`.
  pub must_metrics : Exec (MetricsState G) (Option Metrics)
  unfolding initialised new_metrics
  must_metrics st =
      if st.done then (ok st.instance_of, st) else initialised (new_metrics st.registry)

  -- The state after a number of calls.
  abbrev pub after_calls : ℕ → MetricsState G → MetricsState G
  after_calls zero st = st
  after_calls (suc n) st = after_calls n (must_metrics st).1

  -- The state once the six vectors are registered.
  abbrev pub set_up : G → MetricsState G
  set_up g = record { done = true; instance_of = some metrics; registry = g }
