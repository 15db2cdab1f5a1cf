-- ===== src/App/Stop.antt =====
-- Shutdown of internal/app/app.go, and an application's life from New through Run to Shutdown.
use shop_catalog_service.Common.{
  ◌≡◌, refl, ◌∙◌, ◌&&◌, not, ℕ, Bool, true, false, Option, none, some, String, List, [], ◌∷◌, ◌++◌,
}
use shop_catalog_service.Config.{Config}
use shop_catalog_service.Exec.{Result, ok, err, panic}
use shop_catalog_service.App.{Resources, nothing_open, Libraries, App, Served, new_app}
use shop_catalog_service.App.Serving.{stop_http}
use shop_catalog_service.App.Startup.{Starts, new_app-Starts, has_tracing}
use shop_catalog_service.Service.{Logger}
use shop_catalog_service.Redis.{RedisClient, Json}
use shop_catalog_service.Postgres.{Sql, World}
use shop_catalog_service.Errors.{wrap, Error}
use mathlib.Core.Path.{subst}

-- A closing call that answers an error, and whether what it was to close is held all the same.
pub record Failure : Type 0 where
  pub error : Error
  pub held : Bool

-- What the libraries answer to the closing calls; nil is `none`, and then it is closed.
pub record Closing : Type 0 where
  pub shutdown_http : Option Error
  pub close_producer : Option Failure
  pub close_redis : Option Failure
  pub close_postgres : Option Failure
  pub shutdown_tracing : Option Failure

abbrev still_held : Option Failure → Bool
still_held none = false
still_held (some f) = f.held

-- `errors.Join(shutdownErr, fmt.Errorf(text, err))`, as the list of the joined errors.
abbrev joined : String → Option Error → List Error
joined text none = []
joined text (some e) = wrap text e "" ∷ []

abbrev error_of : Option Failure → Option Error
error_of none = none
error_of (some f) = some f.error

-- A closing call: what is held behind it, and its error behind the others.
abbrev pub released :
    (Bool → Resources → Resources)
    → String
    → Option Failure
    → List Error × Resources
    → List Error × Resources
released f text answer (errors, st) =
    (errors ++ joined text (error_of answer), f (still_held answer) st)

-- Run, as far as it changes what is held: its first goroutine gives the listener to Serve, which
-- closes it at its end, also where GracefulStop came before it.
abbrev pub serving : Resources → Resources
serving st = record st { served = st.listener }

-- GracefulStop, which closes the listeners that Serve was given.
abbrev graceful_stop : Resources → Resources
graceful_stop st = record st { listener = st.listener && not st.served; served = false }

-- The last block, under `a.shutdownTracing != nil`.
trace_stopped : Bool → Option Failure → List Error × Resources → List Error × Resources
trace_stopped true answer x =
    released (λ held st. record st { tracing = held }) "shutdown tracing: " answer x
trace_stopped false answer x = x

-- The blocks of the publisher, of Redis and of PostgreSQL.
abbrev stores_closed : Closing → List Error × Resources → List Error × Resources
stores_closed c x =
    released (λ held st. record st { postgres = held }) "close postgres db: " c.close_postgres
      (released (λ held st. record st { redis = held }) "close redis client: " c.close_redis
        (released (λ held st. record st { producer = held }) "close outbox publisher: "
          c.close_producer x))

-- What is behind the servers and the publisher's goroutine.
abbrev servers_stopped : Closing → Resources → List Error × Resources
servers_stopped c st = (
  joined "stop http app: " (stop_http c.shutdown_http),
  record (graceful_stop st) { outbox = false },
)

-- Shutdown; nil is `none`. The other fields of an application that New returned are set.
unfoldable pub shutdown :
    {S : Type 0} → Closing → Option (App S) → Resources → List Error × Resources
unfolding trace_stopped
shutdown c none st = ([], st)
shutdown c (some app) st =
    trace_stopped app.tracing c.shutdown_tracing (stores_closed c (servers_stopped c st))

-- What is held where each closing call was made: only what its own call left, and the listener.
abbrev left : Bool → Bool → Closing → Resources
left has listener c = record {
  tracing = has && still_held c.shutdown_tracing;
  postgres = still_held c.close_postgres;
  redis = still_held c.close_redis;
  producer = still_held c.close_producer;
  outbox = false;
  listener = listener;
  served = false;
}

-- A run of New, and behind it Run and Shutdown, or Shutdown alone.
abbrev pub IsReleased : {S : Type 0} → Closing → Result (App S) → Resources → Type 0
IsReleased c (ok app) st =
    ((shutdown c (some app) (serving st)).1 ≡ left true false c)
    × ((shutdown c (some app) st).1 ≡ left true true c)
IsReleased c (err e) st = st ≡ nothing_open
IsReleased c panic st = ⊥

append_nil_left : {A : Type 0} (xs ys : List A) → xs ++ ys ≡ [] → xs ≡ []
append_nil_left [] ys e = refl
append_nil_left (x ∷ xs) ys e = cc

append_nil_right : {A : Type 0} (xs ys : List A) → xs ++ ys ≡ [] → ys ≡ []
append_nil_right [] ys e = e
append_nil_right (x ∷ xs) ys e = cc

no_error :
    (text : String) (f : Option Failure) → joined text (error_of f) ≡ [] → still_held f ≡ false
no_error text none e = refl
no_error text (some f) e = cc

-- Where the blocks of the stores join no error, nothing of theirs is held.
stores_released :
    (c : Closing) (x : List Error × Resources)
    → (stores_closed c x).0 ≡ []
    → (still_held c.close_postgres ≡ false)
      × (still_held c.close_redis ≡ false)
      × (still_held c.close_producer ≡ false)
stores_released c (errors, st) e =
    let before = errors ++ joined "close outbox publisher: " (error_of c.close_producer) in
    let stores = before ++ joined "close redis client: " (error_of c.close_redis) in
    let none_before : stores ≡ [] = append_nil_left stores _ e in
    (
      no_error "close postgres db: " c.close_postgres (append_nil_right stores _ e),
      no_error "close redis client: " c.close_redis (append_nil_right before _ none_before),
      no_error "close outbox publisher: " c.close_producer
          (append_nil_right errors _ (append_nil_left before _ none_before)),
    )

-- Where Shutdown returns no error, nothing is left.
all_closed :
    (has : Bool) (c : Closing) (x : List Error × Resources)
    → (trace_stopped has c.shutdown_tracing (stores_closed c x)).0 ≡ []
    → left has false c ≡ nothing_open
unfolding trace_stopped
all_closed true c x e =
    let traced : still_held c.shutdown_tracing ≡ false =
      no_error "shutdown tracing: " c.shutdown_tracing
        (append_nil_right (stores_closed c x).0 _ e) in
    let (postgres, redis, producer) =
      stores_released c x (append_nil_left (stores_closed c x).0 _ e) in
    rw (traced, postgres, redis, producer) refl
all_closed false c x e =
    let (postgres, redis, producer) = stores_released c x e in rw (postgres, redis, producer) refl

module _ {D T R : Type 0} (libraries : Libraries) (logger : Logger) (sql : Sql D T)
    (client : RedisClient R) (json : Json) (fuel : ℕ) (world : World) where
  shutdown-Starts :
      (c : Closing) (has : Bool) (app : App (Served D R)) (st : Resources)
      → Starts has (ok app) st
      → ((shutdown c (some app) (serving st)).1 ≡ left has false c)
        × ((shutdown c (some app) st).1 ≡ left has true c)
  unfolding shutdown
  shutdown-Starts c true app st (same, held) = rw same (rw held (refl, refl))
  shutdown-Starts c false app st (same, held) = rw same (rw held (refl, refl))

  -- An application that New returned, and that ran, holds nothing behind a Shutdown without an error.
  pub shutdown-nothing_open :
      (c : Closing) (has : Bool) (app : App (Served D R)) (st : Resources)
      → Starts has (ok app) st
      → (shutdown c (some app) (serving st)).0 ≡ []
      → (shutdown c (some app) (serving st)).1 ≡ nothing_open
  unfolding shutdown
  shutdown-nothing_open c has app st h e =
      (shutdown-Starts c has app st h).0
      ∙ all_closed has c behind (
          subst
            (λ traced. (trace_stopped traced c.shutdown_tracing (stores_closed c behind)).0 ≡ [])
            h.0 e)
    where
      behind : List Error × Resources
      behind = servers_stopped c (serving st)

  Starts-IsReleased :
      (c : Closing) (r : Result (App (Served D R))) (st : Resources)
      → Starts true r st
      → IsReleased c r st
  Starts-IsReleased c (ok app) st h = shutdown-Starts c true app st h
  Starts-IsReleased c (err e) st h = h
  Starts-IsReleased c panic st h = cc

  -- From New to Shutdown, where InitTracing succeeds and the process held nothing: New does not
  -- panic, and if it returns an error then nothing is held. If it returns an application that runs, then
  -- behind Shutdown a resource is held only where the call that closes it answered an error and left it
  -- held, whichever other calls fail; and if Run is not called, the gRPC listener is held too.
  pub new_app-IsReleased :
      (c : Closing) (cfg : Config)
      → libraries.init_tracing ≡ none
      → let (r, st) = new_app libraries logger sql client json fuel world (some cfg) nothing_open in
        IsReleased c r st
  new_app-IsReleased c cfg traced =
      let (r, st) = new_app libraries logger sql client json fuel world (some cfg) nothing_open in
      Starts-IsReleased c r st (
        subst (λ init. Starts (has_tracing init) r st) traced
          (new_app-Starts libraries logger sql client json fuel world cfg))
