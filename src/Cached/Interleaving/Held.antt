-- ===== src/Cached/Interleaving/Held.antt =====
-- What the calls of internal/repository/cached/product_repository.go hold and answer: products and pages of
-- some kind, `K` for the products that are in the cache or answered, `H` for those that a read holds
-- between its look into the next repository and its store in the cache, and `L` for pages.
use shop_catalog_service.Common.{◌≡◌, String, List, [], ◌∷◌}
use shop_catalog_service.Common.Int.{ℤ}
use shop_catalog_service.Exec.{Result, ok, err, panic}
use shop_catalog_service.Exec.Ensures.{Post}
use shop_catalog_service.Domain.{Product}
use shop_catalog_service.Service.{effective_limit}
use shop_catalog_service.Service.Calls.{Call, list, get, create, update, stock, Reply}
use shop_catalog_service.Cached.Steps.{
  Pc, started, product_missed, product_read, page_missed, page_read, stored, dropped, returned,
  settled,
}

-- The calls that drop entries.
abbrev pub IsWrite : Call → Type 0
IsWrite (list limit offset) = ⊥
IsWrite (get id) = ⊥
IsWrite (create cmd) = Unit
IsWrite (update cmd) = Unit
IsWrite (stock id delta) = Unit

-- A read before one of its steps.
abbrev pub IsReading : Pc → Type 0
IsReading (started (get id)) = Unit
IsReading (started (list limit offset)) = Unit
IsReading (started (create cmd)) = ⊥
IsReading (started (update cmd)) = ⊥
IsReading (started (stock id delta)) = ⊥
IsReading (product_missed id) = Unit
IsReading (product_read id p) = Unit
IsReading (page_missed limit offset) = Unit
IsReading (page_read limit offset ps) = Unit
IsReading (stored call id p) = ⊥
IsReading (dropped call p) = ⊥
IsReading (returned call reply) = ⊥

module _ (K H : String → Product → Type 0) (L : ℤ → ℤ → List Product → Type 0) where
  abbrev IsSingle : String → Reply → Type 0
  IsSingle id [] = ⊥
  IsSingle id (p ∷ []) = K id p
  IsSingle id (_ ∷ _ ∷ _) = ⊥

  -- The answer of a read; an error or a panic answers nothing.
  abbrev pub IsAnswerOf : Result Reply → Call → Type 0
  IsAnswerOf (ok ps) (get id) = IsSingle id ps
  IsAnswerOf (ok ps) (list limit offset) = L (effective_limit limit) offset ps
  IsAnswerOf (ok ps) (create cmd) = Unit
  IsAnswerOf (ok ps) (update cmd) = Unit
  IsAnswerOf (ok ps) (stock id delta) = Unit
  IsAnswerOf (err e) call = Unit
  IsAnswerOf panic call = Unit

  -- What a call holds between its steps, and what it answers at its end.
  abbrev pub IsHeld : Pc → Type 0
  IsHeld (started call) = Unit
  IsHeld (product_missed id) = Unit
  IsHeld (product_read id p) = (p.id ≡ id) × H id p
  IsHeld (page_missed limit offset) = Unit
  IsHeld (page_read limit offset ps) = L (effective_limit limit) offset ps
  IsHeld (stored call id p) = IsWrite call
  IsHeld (dropped call p) = IsWrite call
  IsHeld (returned call reply) = IsAnswerOf reply call

  pub IsAnswerOf-write : (ps : Reply) (call : Call) → IsWrite call → IsAnswerOf (ok ps) call
  IsAnswerOf-write ps (list limit offset) w = absurd w
  IsAnswerOf-write ps (get id) w = absurd w
  IsAnswerOf-write ps (create cmd) w = tt
  IsAnswerOf-write ps (update cmd) w = tt
  IsAnswerOf-write ps (stock id delta) w = tt

  pub settled-IsHeld : (call : Call) (x : Result Pc) → Post IsHeld x → IsHeld (settled call x)
  settled-IsHeld call (ok pc) h = h
  settled-IsHeld call (err e) h = tt
  settled-IsHeld call panic h = tt
