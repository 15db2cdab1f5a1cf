-- ===== src/App/Serving.antt =====
-- Run of internal/app/app.go with Run, Stop and Addr of grpcapp/app.go and httpapp/app.go: the three
-- goroutines and the channel of errors. A goroutine is the answer that its server or loop gives at its end.
use shop_catalog_service.Common.{
  ◌∙◌, sym, ap, Bool-cases, ℕ, ◌+◌, ◌≤◌, ◌≡◌, refl, inl, inr, String, Bool, true, false, Option,
  none, some, List, [], ◌∷◌, ◌++◌, if◌then◌else◌, ltb, arith,
}
use shop_catalog_service.Common.Lists.{length, length-append}
use shop_catalog_service.Errors.{Error, wrap, error_is, server_closed}
use shop_catalog_service.Exec.{Result, ok, panic}
use shop_catalog_service.App.{GrpcApp, HttpApp}
use mathlib.Core.Path.{subst}

-- fmt.Errorf("<op>: %w", err), unless err is nil.
abbrev wrapped : String → Option Error → Option Error
wrapped op none = none
wrapped op (some e) = some (wrap op e "")

-- grpcapp.App.Run, on what Serve answers.
run_grpc : Option Error → Option Error
run_grpc served = wrapped "grpcapp.Run: " served

-- httpapp.App.Run, on what ListenAndServe answers.
unfoldable pub run_http : Option Error → Option Error
run_http none = none
run_http (some e) = if error_is e server_closed then none else some (wrap "httpapp.Run: " e "")

-- httpapp.App.Stop, on what server.Shutdown answers.
unfoldable pub stop_http : Option Error → Option Error
stop_http answer = wrapped "httpapp.Stop: " answer

-- httpapp.App.Addr; a nil application or server is `none`.
http_app_addr : Option HttpApp → String
http_app_addr none = ""
http_app_addr (some app) = app.addr

-- grpcapp.App.Addr, with the text of the listener's address; a nil application is `none`, and its field
-- is read behind the test for nil. New sets the listener of every other.
grpc_app_addr : (GrpcApp → String) → Option GrpcApp → Result String
grpc_app_addr bound none = panic
grpc_app_addr bound (some app) = ok (bound app)

-- Addr of a nil application: httpapp's returns the empty text, and grpcapp's panics.
nil_addresses :
    (bound : GrpcApp → String) → (http_app_addr none ≡ "") × (grpc_app_addr bound none ≡ panic)
unfolding http_app_addr grpc_app_addr
nil_addresses bound = (refl, refl)

data Task : Type 0 where
  grpc_task http_task outbox_task : Task

-- errCh, and which goroutines have ended.
record Running : Type 0 where
  pub errors : List Error
  pub grpc_ended : Bool
  pub http_ended : Bool
  pub outbox_ended : Bool

-- App.Errors, the channel; a nil application has none.
errors_of : Option Running → Option (List Error)
errors_of none = none
errors_of (some st) = some st.errors

abbrev just_started : Running
just_started = record { errors = []; grpc_ended = false; http_ended = false; outbox_ended = false }

abbrev has_ended : Task → Running → Bool
has_ended grpc_task st = st.grpc_ended
has_ended http_task st = st.http_ended
has_ended outbox_task st = st.outbox_ended

abbrev end_of : Task → Running → Running
end_of grpc_task st = record st { grpc_ended = true }
end_of http_task st = record st { http_ended = true }
end_of outbox_task st = record st { outbox_ended = true }

abbrev context_of : Task → String
context_of grpc_task = "grpc app failed: "
context_of http_task = "http app failed: "
context_of outbox_task = "outbox publisher failed: "

-- `errCh <- e`, where the channel has room for three errors; `none` where the send blocks.
send_error : Error → Running → Option Running
send_error e st =
    if ltb (length st.errors) 3 then some (record st { errors = st.errors ++ e ∷ [] }) else none

-- The end of a goroutine, on what its Run answers.
end_task : Task → Option Error → Running → Option Running
unfolding send_error
end_task t none st = some (end_of t st)
end_task t (some e) st = send_error (wrap (context_of t) e "") (end_of t st)

-- One goroutine ends, which has not ended before.
data Ends : Running → Running → Type 0 where
  ends :
      (t : Task) (answer : Option Error) (st st' : Running)
      → has_ended t st ≡ false
      → end_task t answer st ≡ some st'
      → Ends st st'

data EndsMany : Running → Running → Type 0 where
  here : (st : Running) → EndsMany st st
  further : (st st' st'' : Running) → EndsMany st st' → Ends st' st'' → EndsMany st st''

abbrev one : Bool → ℕ
one true = 1
one false = 0

abbrev count_ended : Running → ℕ
count_ended st = one st.grpc_ended + one st.http_ended + one st.outbox_ended

-- No more errors than goroutines that have ended.
abbrev IsBounded : Running → Type 0
IsBounded st = length st.errors ≤ count_ended st

count_ended-end_of :
    (t : Task) (st : Running)
    → has_ended t st ≡ false
    → count_ended (end_of t st) ≡ count_ended st + 1
count_ended-end_of grpc_task st fresh = omega (arith, ap one fresh)
count_ended-end_of http_task st fresh = omega (arith, ap one fresh)
count_ended-end_of outbox_task st fresh = omega (arith, ap one fresh)

same_errors : (t : Task) (st : Running) → (end_of t st).errors ≡ st.errors
same_errors grpc_task st = refl
same_errors http_task st = refl
same_errors outbox_task st = refl

some_inj : {A : Type 0} {a b : A} → some a ≡ some b → a ≡ b
some_inj e = cc

blocked : {A : Type 0} {a : A} → none ≡ some a → ⊥
blocked e = cc

-- An error more, and the count as it is.
send_error-IsBounded :
    (e : Error) (st st' : Running)
    → send_error e st ≡ some st'
    → length st.errors + 1 ≤ count_ended st
    → IsBounded st'
unfolding send_error
send_error-IsBounded e st st' sent h = elim (Bool-cases (ltb (length st.errors) 3)) [
  | inl room ↦
      let same : record st { errors = st.errors ++ e ∷ [] } ≡ st' =
        some_inj (sym (rw room refl) ∙ sent) in
      subst IsBounded same (omega (arith, h, length-append st.errors (e ∷ [])))
  | inr full ↦ absurd (blocked (sym (rw full refl) ∙ sent))
]

end_task-IsBounded :
    (t : Task) (answer : Option Error) (st st' : Running)
    → has_ended t st ≡ false
    → end_task t answer st ≡ some st'
    → IsBounded st
    → IsBounded st'
unfolding end_task
end_task-IsBounded t none st st' fresh e h =
    subst IsBounded (some_inj e)
      (omega (arith, h, count_ended-end_of t st fresh, ap length (same_errors t st)))
end_task-IsBounded t (some x) st st' fresh e h =
    send_error-IsBounded (wrap (context_of t) x "") (end_of t st) st' e
      (omega (arith, h, count_ended-end_of t st fresh, ap length (same_errors t st)))

EndsMany-IsBounded : (st st' : Running) → EndsMany st st' → IsBounded st → IsBounded st'
EndsMany-IsBounded _ _ (here st) h = h
EndsMany-IsBounded _ _ (further st st' st'' before (ends t answer _ _ fresh e)) h =
    end_task-IsBounded t answer st' st'' fresh e (EndsMany-IsBounded st st' before h)

one-le : (b : Bool) → one b ≤ 1
one-le true = omega arith
one-le false = omega arith

few_ended : (t : Task) (st : Running) → has_ended t st ≡ false → count_ended st ≤ 2
few_ended grpc_task st fresh =
    omega (arith, ap one fresh, one-le st.http_ended, one-le st.outbox_ended)
few_ended http_task st fresh =
    omega (arith, ap one fresh, one-le st.grpc_ended, one-le st.outbox_ended)
few_ended outbox_task st fresh =
    omega (arith, ap one fresh, one-le st.grpc_ended, one-le st.http_ended)

has_room :
    (e : Error) (st : Running)
    → length st.errors ≤ 2
    → (st' : Running) × (send_error e st ≡ some st')
unfolding send_error
has_room e st h =
    let room : ltb (length st.errors) 3 ≡ true = ground arith in
    (record st { errors = st.errors ++ e ∷ [] }, rw room refl)

-- A goroutine that has not ended can end: its send on the channel of errors does not block, in
-- whatever order the goroutines end and with whatever answers.
end_task_goes_on :
    (st : Running) (t : Task) (answer : Option Error)
    → EndsMany just_started st
    → has_ended t st ≡ false
    → (st' : Running) × (end_task t answer st ≡ some st')
unfolding end_task
end_task_goes_on st t none many fresh = (end_of t st, refl)
end_task_goes_on st t (some e) many fresh = has_room (wrap (context_of t) e "") (end_of t st) (
    omega (
      arith,
      few_ended t st fresh,
      ap length (same_errors t st),
      EndsMany-IsBounded just_started st many (omega arith),
    ))
