-- ===== src/Service/Counting.antt =====
-- How a piece of the service's code counts itself in `requests_total`: a predicate on code, and one
-- rule for each way in which the methods are put together.
use shop_catalog_service.Common.{
  true, Bool, ◌≡◌, String, Option, none, some, [], ◌∷◌, refl, str_eq, false, if◌then◌else◌,
}
use shop_catalog_service.Exec.{
  ◌>>=◌, ◌>>◌, pure, fail, continue, handle, deref, Exec, Result, ok, err, panic,
}
use shop_catalog_service.Service.{
  on_repo, count_and_fail, unless, log, count_request, Logger, CatalogService, ServiceState,
  CounterVec,
}
use shop_catalog_service.Service.Calls.{one}
use shop_catalog_service.Errors.{Error}
use shop_catalog_service.Domain.{Product}

-- The latest increment, and those before it.
abbrev latest : CounterVec → String × String
latest [] = ("", "")
latest (entry ∷ _) = entry

abbrev earlier : CounterVec → CounterVec
earlier [] = []
earlier (_ ∷ v) = v

-- What a call of a method adds to the counter, by its result: one success, one increment with some
-- other status, or nothing after a panic.
abbrev pub Counts : {A : Type 0} → String → CounterVec → Result A → CounterVec → Type 0
Counts method v (ok _) v' = v' ≡ (method, "success") ∷ v
Counts method v (err _) v' =
    (str_eq (latest v').1 "success" ≡ false) × (v' ≡ (method, (latest v').1) ∷ v)
Counts method v panic v' = v' ≡ v

module _ {S A : Type 0} (method : String) where
  -- A piece of code that ends in one increment of the method, however it ends.
  pub record IsCounted (m : Exec (ServiceState S) A) : Type 0 where
    pub at :
        (st : ServiceState S)
        → let (r, st') = m st in Counts method st.requests_total r st'.requests_total

  pub IsCounted-fail :
      (status : String) (e : Error)
      → str_eq status "success" ≡ false
      → IsCounted (count_and_fail method status e)
  IsCounted-fail status e h = record { at = λ st. (h, refl) }

  pub IsCounted-success : (a : A) → IsCounted (count_request method "success" >> pure a)
  IsCounted-success a = record { at = λ st. refl }

  pub IsCounted-deref :
      {B : Type 0} (o : Option B) (f : B → Exec (ServiceState S) A)
      → ((b : B) → IsCounted (f b))
      → IsCounted (deref o >>= f)
  IsCounted-deref none f h = record { at = λ st. refl }
  IsCounted-deref (some b) f h = record { at = λ st. (h b).at st }

  pub IsCounted-log :
      (this : CatalogService S) (m : Exec (ServiceState S) A)
      → IsCounted m
      → IsCounted (log this >> m)
  IsCounted-log this m h = go this.logger
    where
      go : (o : Option Logger) → IsCounted ((deref o >> pure tt) >> m)
      go none = record { at = λ st. refl }
      go (some _) = record { at = λ st. h.at st }

  pub IsCounted-repo :
      {B : Type 0} (m : Exec S B) (f : Error → Exec (ServiceState S) A)
      (g : B → Exec (ServiceState S) A)
      → ((e : Error) → IsCounted (f e))
      → ((b : B) → IsCounted (g b))
      → IsCounted (handle (on_repo m) f g)
  IsCounted-repo {B} m f g hf hg = record { at = λ st. go st (m st.repo).0 (m st.repo).1 }
    where
      go :
          (st : ServiceState S) (r : Result B) (s : S)
          → let (r', st') = continue r f g (record st { repo = s }) in
            Counts method st.requests_total r' st'.requests_total
      go st (ok b) s = (hg b).at (record st { repo = s })
      go st (err e) s = (hf e).at (record st { repo = s })
      go st panic s = refl

  pub IsCounted-if :
      (b : Bool) (m n : Exec (ServiceState S) A)
      → IsCounted m
      → IsCounted n
      → IsCounted (if b then m else n)
  IsCounted-if true m n hm hn = hm
  IsCounted-if false m n hm hn = hn

  pub IsCounted-unless :
      (o : Option Error) (f : Error → Exec (ServiceState S) A) (m : Exec (ServiceState S) A)
      → ((e : Error) → IsCounted (f e))
      → IsCounted m
      → IsCounted (unless o f m)
  IsCounted-unless none f m hf hm = hm
  IsCounted-unless (some e) f m hf hm = hf e

pub IsCounted-one :
    {S : Type 0} (method : String) (m : Exec (ServiceState S) Product)
    → IsCounted method m
    → IsCounted method (one m)
IsCounted-one {S} method m h = record { at = λ st. go st (m st).0 (m st).1 (h.at st) }
  where
    go :
        (st : ServiceState S) (r : Result Product) (st' : ServiceState S)
        → Counts method st.requests_total r st'.requests_total
        → let (r', st'') = continue {S = ServiceState S} r fail (λ p. pure (p ∷ [])) st' in
          Counts method st.requests_total r' st''.requests_total
    go st (ok p) st' c = c
    go st (err e) st' c = c
    go st panic st' c = c

pub is_failure :
    (b : Bool) (s t : String)
    → str_eq s "success" ≡ false
    → str_eq t "success" ≡ false
    → str_eq (if b then s else t) "success" ≡ false
is_failure true s t hs ht = hs
is_failure false s t hs ht = ht

pub ruleset counting = (
  IsCounted-fail, IsCounted-success, IsCounted-deref, IsCounted-log, IsCounted-repo, IsCounted-if,
  IsCounted-unless, IsCounted-one, is_failure,
)
