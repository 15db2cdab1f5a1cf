-- ===== src/Cached/Interleaving/Versions.antt =====
-- What a read of internal/repository/cached/product_repository.go may return while other calls of it run: a
-- version that the next repository has had.
use shop_catalog_service.Common.{◌⊎◌, inr, String, Option, List, [], ◌∷◌}
use shop_catalog_service.Common.Int.{ℤ}
use shop_catalog_service.Exec.{Result, ok, err, panic}
use shop_catalog_service.Domain.{Product}
use shop_catalog_service.Service.Calls.{Call, list, get, create, update, stock, Reply}
use shop_catalog_service.Cached.Coherence.{Stored, Paged}
use shop_catalog_service.Cached.Steps.{
  Pc, started, product_missed, product_read, page_missed, page_read, stored, dropped, returned,
}
use shop_catalog_service.Cached.Interleaving.Held.{IsAnswerOf, IsHeld}

-- One of the states had the property.
abbrev Was : {S : Type 0} → List S → (S → Type 0) → Type 0
Was [] P = ⊥
Was (s ∷ past) P = P s ⊎ Was past P

module _ {S : Type 0} (find : S → String → Option Product)
    (listing : S → ℤ → ℤ → Option (List Product)) where
  -- A version that a product has had, and one that a page has had.
  abbrev pub Known : List S → String → Product → Type 0
  Known past id p = Was past (λ s. Stored find s id p)

  abbrev pub KnownPage : List S → ℤ → ℤ → List Product → Type 0
  KnownPage past limit offset ps = Was past (λ s. Paged listing s limit offset ps)

  -- The answer of a read is such a version, and so is what a call holds.
  abbrev pub IsAnswer : List S → Result Reply → Call → Type 0
  IsAnswer past = IsAnswerOf (Known past) (Known past) (KnownPage past)

  abbrev pub IsFair : List S → Pc → Type 0
  IsFair past = IsHeld (Known past) (Known past) (KnownPage past)

  IsVersion-later :
      (s : S) (past : List S) (id : String) (ps : Reply)
      → IsAnswer past (ok ps) (get id)
      → IsAnswer (s ∷ past) (ok ps) (get id)
  IsVersion-later s past id [] h = h
  IsVersion-later s past id (p ∷ []) h = inr h
  IsVersion-later s past id (p ∷ q ∷ ps) h = h

  IsAnswer-later :
      (s : S) (past : List S) (reply : Result Reply) (call : Call)
      → IsAnswer past reply call
      → IsAnswer (s ∷ past) reply call
  IsAnswer-later s past (ok ps) (get id) h = IsVersion-later s past id ps h
  IsAnswer-later s past (ok ps) (list limit offset) h = inr h
  IsAnswer-later s past (ok ps) (create cmd) h = tt
  IsAnswer-later s past (ok ps) (update cmd) h = tt
  IsAnswer-later s past (ok ps) (stock id delta) h = tt
  IsAnswer-later s past (err e) call h = tt
  IsAnswer-later s past panic call h = tt

  pub IsFair-later : (s : S) (past : List S) (pc : Pc) → IsFair past pc → IsFair (s ∷ past) pc
  IsFair-later s past (started call) h = tt
  IsFair-later s past (product_missed id) h = tt
  IsFair-later s past (product_read id p) h = (h.0, inr h.1)
  IsFair-later s past (page_missed limit offset) h = tt
  IsFair-later s past (page_read limit offset ps) h = inr h
  IsFair-later s past (stored call id p) h = h
  IsFair-later s past (dropped call p) h = h
  IsFair-later s past (returned call reply) h = IsAnswer-later s past reply call h
