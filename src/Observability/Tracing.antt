-- ===== src/Observability/Tracing.antt =====
-- internal/observability/tracing.go: the set-up of tracing. OpenTelemetry is a parameter.
use shop_catalog_service.Common.{◌∙◌, sym, ap, ◌≡◌, refl, String, Option, some}
use shop_catalog_service.Errors.{wrap}
use shop_catalog_service.Exec.{Result, ok, err, panic, Exec, pure, fail, handle, lift, ◌>>◌}
use shop_catalog_service.Repository.{Context}
use shop_catalog_service.Exec.Ensures.{handle_cases}

-- resource.New with its three attributes, otlptracegrpc.New with the endpoint and without TLS, and
-- sdktrace.NewTracerProvider, which batches for two seconds at most.
record Otel (V X P : Type 0) : Type 0 where
  pub new_resource : Context → String → String → String → Result V
  pub new_exporter : Context → String → Result X
  pub new_provider : X → V → P

-- The propagators that the service sets.
pub data Propagator : Type 0 where
  trace_context : Propagator

-- The globals of the package otel.
pub record Telemetry (P : Type 0) : Type 0 where
  pub tracer_provider : Option P
  pub propagator : Option Propagator

module _ {V X P : Type 0} (otel : Otel V X P) (ctx : Context) where
  -- otel.SetTracerProvider and otel.SetTextMapPropagator
  abbrev set_globals : P → Exec (Telemetry P) (Unit {0})
  set_globals tp st = (ok tt, record { tracer_provider = some tp; propagator = some trace_context })

  -- InitTracing; the returned method value tp.Shutdown is its provider.
  init_tracing : String → String → String → String → Exec (Telemetry P) P
  init_tracing service_name service_version env endpoint =
      handle (lift (otel.new_resource ctx service_name service_version env))
        (λ e. fail (wrap "create otel resource: " e ""))
        (λ res.
          handle (lift (otel.new_exporter ctx endpoint))
            (λ e. fail (wrap "create otlp trace exporter: " e ""))
            (λ exporter. let tp = otel.new_provider exporter res in set_globals tp >> pure tp))

  -- How InitTracing ends: with the provider that is now the global one, or with nothing changed.
  abbrev IsInstalled : Telemetry P → Result P × Telemetry P → Type 0
  IsInstalled st (ok tp, st') =
      (st'.tracer_provider ≡ some tp) × (st'.propagator ≡ some trace_context)
  IsInstalled st (err e, st') = st' ≡ st
  IsInstalled st (panic, st') = st' ≡ st

  -- InitTracing returns the Shutdown of the provider that it has set, together with the propagator,
  -- or an error that leaves both as they were.
  init_tracing-IsInstalled :
      (service_name service_version env endpoint : String) (st : Telemetry P)
      → IsInstalled st (init_tracing service_name service_version env endpoint st)
  unfolding init_tracing
  init_tracing-IsInstalled service_name service_version env endpoint st =
      handle_cases (λ r st'. IsInstalled st (r, st'))
        (lift (otel.new_resource ctx service_name service_version env)) _ _ st
        (λ res st' e.
          handle_cases (λ r st'. IsInstalled st (r, st')) (lift (otel.new_exporter ctx endpoint)) _
            _ st' (λ exporter st'' e'. (refl, refl)) (λ x st'' e'. stays e' ∙ stays e)
            (λ st'' e'. stays e' ∙ stays e))
        (λ x st' e. stays e) (λ st' e. stays e)
    where
      stays :
          {A : Type 0} {x y : Result A} {s s' : Telemetry P}
          → ◌≡◌ {A = Result A × Telemetry P} (x, s) (y, s')
          → s' ≡ s
      stays e = ap (λ (z : Result _ × Telemetry P). z.1) (sym e)
