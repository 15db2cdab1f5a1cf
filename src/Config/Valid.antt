-- ===== src/Config/Valid.antt =====
-- Validate and Load of internal/config/config.go: which configurations they accept.
use shop_catalog_service.Common.{
  Bool-cases, ◌≡◌, ◌≢◌, refl, ◌⊎◌, inl, inr, String, Bool, true, false, Option, none, some, str_eq,
  eq_iff, arith, if◌then◌else◌,
}
use shop_catalog_service.Common.Int.{negsuc, ℤ, pos, ◌≤ℤ◌, ◌<ℤ◌, leb_ℤ}
use shop_catalog_service.Errors.{Error}
use shop_catalog_service.Exec.{Result, ok, err, panic}
use shop_catalog_service.Config.{Config, validate, bad_port, Files, load, read, validated}

abbrev IsPort : ℤ → Type 0
IsPort port = (pos 0 <ℤ port) × (port ≤ℤ pos 65535)

-- What Validate asks for.
abbrev pub IsValid : Config → Type 0
IsValid c =
    (c.service_name ≢ "")
    × ((c.env ≢ "")
        × (IsPort c.grpc.port
            × (IsPort c.http.port
                × ((pos 0 <ℤ c.grpc.timeout)
                    × ((pos 0 <ℤ c.http.timeout)
                        × ((pos 0 <ℤ c.shutdown_timeout) × (c.otlp_endpoint ≢ "")))))))

-- The check passes and the property holds, or it gives an error and the property does not hold.
abbrev Decides : Type 0 → Option Error → Type 0
Decides P r = ((r ≡ none) × P) ⊎ ((e : Error) × (r ≡ some e) × ¬ P)

-- One guard before the others.
guard_Decides :
    {P Q : Type 0} (b : Bool) (e : Error) (r : Option Error)
    → (b ≡ true → ¬ Q)
    → (b ≡ false → Q)
    → Decides P r
    → Decides (Q × P) (if b then some e else r)
guard_Decides true e r bad good d = inr (e, refl, λ h. bad refl h.0)
guard_Decides false e r bad good (inl (passes, p)) = inl (passes, (good refl, p))
guard_Decides false e r bad good (inr (e', fails, n)) = inr (e', fails, λ h. n h.1)

last_guard_Decides :
    {Q : Type 0} (b : Bool) (e : Error)
    → (b ≡ true → ¬ Q)
    → (b ≡ false → Q)
    → Decides Q (if b then some e else none)
last_guard_Decides true e bad good = inr (e, refl, bad refl)
last_guard_Decides false e bad good = inl (refl, good refl)

is_empty : (s : String) → str_eq s "" ≡ true → ¬ (s ≢ "")
is_empty s h n = n ((eq_iff s "").0 h)

is_given : (s : String) → str_eq s "" ≡ false → s ≢ ""
is_given s h e = let t : str_eq s "" ≡ true = (eq_iff s "").1 e in cc

not_positive : (t : ℤ) → leb_ℤ t (pos 0) ≡ true → ¬ (pos 0 <ℤ t)
not_positive (pos n) h p = ground arith
not_positive (negsuc n) h p = ground arith

positive : (t : ℤ) → leb_ℤ t (pos 0) ≡ false → pos 0 <ℤ t
positive (pos n) h = ground arith
positive (negsuc n) h = ground arith

bad_port-IsPort_not : (t : ℤ) → bad_port t ≡ true → ¬ IsPort t
unfolding bad_port
bad_port-IsPort_not (pos n) h (low, high) = ground arith
bad_port-IsPort_not (negsuc n) h (low, high) = ground arith

bad_port-IsPort : (t : ℤ) → bad_port t ≡ false → IsPort t
unfolding bad_port
bad_port-IsPort (pos n) h = (ground arith, ground arith)
bad_port-IsPort (negsuc n) h = (ground arith, ground arith)

-- Validate accepts a configuration just where it names the service, the environment and the OTLP
-- endpoint, its two ports are in 1..65535 and its three timeouts are positive; else it returns an error.
validate-Decides : (c : Config) → Decides (IsValid c) (validate c)
unfolding validate
validate-Decides c =
    guard_Decides (str_eq c.service_name "") _ _ (is_empty c.service_name) (is_given c.service_name)
      (guard_Decides (str_eq c.env "") _ _ (is_empty c.env) (is_given c.env) (
        guard_Decides (bad_port c.grpc.port) _ _ (bad_port-IsPort_not c.grpc.port)
          (bad_port-IsPort c.grpc.port)
          (guard_Decides (bad_port c.http.port) _ _ (bad_port-IsPort_not c.http.port)
            (bad_port-IsPort c.http.port)
            (guard_Decides (leb_ℤ c.grpc.timeout (pos 0)) _ _ (not_positive c.grpc.timeout)
              (positive c.grpc.timeout)
              (guard_Decides (leb_ℤ c.http.timeout (pos 0)) _ _ (not_positive c.http.timeout)
                (positive c.http.timeout)
                (guard_Decides (leb_ℤ c.shutdown_timeout (pos 0)) _ _
                  (not_positive c.shutdown_timeout) (positive c.shutdown_timeout)
                  (last_guard_Decides (str_eq c.otlp_endpoint "") _ (is_empty c.otlp_endpoint)
                    (is_given c.otlp_endpoint))))))))

-- How Load ends: with a configuration that was read and is valid, or with an error, because of the
-- path, the file or the configuration.
abbrev pub LoadOutcome : Files → String → Result Config → Type 0
LoadOutcome files path (ok cfg) =
    (path ≢ "") × (files.is_missing path ≡ false) × (files.read_config path ≡ ok cfg) × IsValid cfg
LoadOutcome files path (err e) =
    (path ≡ "")
    ⊎ ((files.is_missing path ≡ true)
        ⊎ (((x : Error) × (files.read_config path ≡ err x))
            ⊎ ((cfg : Config) × (files.read_config path ≡ ok cfg) × ¬ IsValid cfg)))
LoadOutcome files path panic = files.read_config path ≡ panic

validated-LoadOutcome :
    (files : Files) (path : String) (cfg : Config)
    → path ≢ ""
    → files.is_missing path ≡ false
    → files.read_config path ≡ ok cfg
    → Decides (IsValid cfg) (validate cfg)
    → LoadOutcome files path (validated cfg (validate cfg))
unfolding validated
validated-LoadOutcome files path cfg given there e (inl (passes, valid)) =
    rw passes (given, there, e, valid)
validated-LoadOutcome files path cfg given there e (inr (x, fails, invalid)) =
    rw fails (inr (inr (inr (cfg, e, invalid))))

read-LoadOutcome :
    (files : Files) (path : String)
    → path ≢ ""
    → files.is_missing path ≡ false
    → (r : Result Config) → files.read_config path ≡ r
    → LoadOutcome files path (read r)
unfolding read
read-LoadOutcome files path given there (ok cfg) e =
    validated-LoadOutcome files path cfg given there e (validate-Decides cfg)
read-LoadOutcome files path given there (err x) e = inr (inr (inl (x, e)))
read-LoadOutcome files path given there panic e = e

-- Load returns a configuration only where the path is given, the file is there, cleanenv read this
-- configuration and it is valid; it returns an error only where one of these fails.
pub load-LoadOutcome : (files : Files) (path : String) → LoadOutcome files path (load files path)
unfolding load
load-LoadOutcome files path = elim (Bool-cases (str_eq path "")) [
  | inl none_given ↦ rw none_given (inl ((eq_iff path "").0 none_given))
  | inr given ↦ rw given (elim (Bool-cases (files.is_missing path)) [
    | inl missing ↦ rw missing (inr (inl missing))
    | inr there ↦
        rw there
          (read-LoadOutcome files path (is_given path given) there (files.read_config path) refl)
  ])
]
