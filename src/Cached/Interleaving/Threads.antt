-- ===== src/Cached/Interleaving/Threads.antt =====
-- Where the calls of internal/repository/cached/product_repository.go stand while others take a step.
use shop_catalog_service.Common.{
  arith, ℕ, ◌==◌, if◌then◌else◌, Bool, Bool-cases, true, false, ◌≡◌, ◌≢◌, refl, sym, inl, inr,
  String, List,
}
use shop_catalog_service.Common.Int.{ℤ}
use shop_catalog_service.Domain.{Product}
use shop_catalog_service.Cached.Steps.{
  Pc, started, product_missed, product_read, page_missed, page_read, stored, dropped, returned,
}
use shop_catalog_service.Cached.Interleaving.{at_thread}
use mathlib.Core.Path.{subst}
use shop_catalog_service.Cached.Interleaving.Held.{IsHeld, IsReading}

same_thread : (i j : ℕ) → (j == i) ≡ true → j ≡ i
same_thread i j e = ground arith

own_thread : (i : ℕ) (p : Pc) (pcs : ℕ → Pc) → at_thread i p pcs i ≡ p
own_thread i p pcs = elim (Bool-cases (i == i)) [ inl e ↦ rw (e) | inr e ↦ absurd (ground arith) ]

pub at_thread-all :
    (P : Pc → Type 0) (pcs : ℕ → Pc) (i : ℕ) (p : Pc)
    → P p
    → ((j : ℕ) → P (pcs j))
    → (j : ℕ) → P (at_thread i p pcs j)
at_thread-all P pcs i p new old j = go (j == i)
  where
    go : (b : Bool) → P (if b then p else pcs j)
    go true = new
    go false = old j

-- The id whose entry a write drops next.
abbrev pub DropsNext : Pc → String → Type 0
DropsNext (started call) id = ⊥
DropsNext (product_missed k) id = ⊥
DropsNext (product_read k p) id = ⊥
DropsNext (page_missed limit offset) id = ⊥
DropsNext (page_read limit offset ps) id = ⊥
DropsNext (stored call k p) id = k ≡ id
DropsNext (dropped call p) id = ⊥
DropsNext (returned call reply) id = ⊥

-- A write has changed the product and has not dropped its entry.
abbrev pub Dirty : (ℕ → Pc) → String → Type 0
Dirty pcs id = (j : ℕ) × DropsNext (pcs j) id

pub Dirty-own :
    (pcs : ℕ → Pc) (i : ℕ) (p : Pc) (id : String) → DropsNext p id → Dirty (at_thread i p pcs) id
Dirty-own pcs i p id d = (i, subst (λ q. DropsNext q id) (sym (own_thread i p pcs)) d)

pub Dirty-others :
    (pcs : ℕ → Pc) (i : ℕ) (p : Pc) (id : String)
    → (DropsNext (pcs i) id → ⊥)
    → Dirty pcs id
    → Dirty (at_thread i p pcs) id
Dirty-others pcs i p id clean (j, d) = elim (Bool-cases (j == i)) [
  | inl e ↦ absurd (clean (subst (λ k. DropsNext (pcs k) id) (same_thread i j e) d))
  | inr e ↦ (j, subst (λ b. DropsNext (if b then p else pcs j) id) (sym e) d)
]

pub IsReading-clean : (pc : Pc) → IsReading pc → (id : String) → DropsNext pc id → ⊥
IsReading-clean (started call) reading id d = d
IsReading-clean (product_missed k) reading id d = d
IsReading-clean (product_read k p) reading id d = d
IsReading-clean (page_missed limit offset) reading id d = d
IsReading-clean (page_read limit offset ps) reading id d = d
IsReading-clean (stored call k p) reading id d = reading
IsReading-clean (dropped call p) reading id d = d
IsReading-clean (returned call reply) reading id d = d

-- A read that holds a product holds one of its own id and of a kind.
abbrev pub Holding : (String → Product → Type 0) → Pc → Type 0
Holding H (started call) = Unit
Holding H (product_missed id) = Unit
Holding H (product_read id p) = (p.id ≡ id) × H id p
Holding H (page_missed limit offset) = Unit
Holding H (page_read limit offset ps) = Unit
Holding H (stored call id p) = Unit
Holding H (dropped call p) = Unit
Holding H (returned call reply) = Unit

pub free-Holding :
    (H : String → Product → Type 0) (pc : Pc)
    → ((id : String) (p : Product) → pc ≢ product_read id p)
    → Holding H pc
free-Holding H (started call) free = tt
free-Holding H (product_missed id) free = tt
free-Holding H (product_read id p) free = absurd (free id p refl)
free-Holding H (page_missed limit offset) free = tt
free-Holding H (page_read limit offset ps) free = tt
free-Holding H (stored call id p) free = tt
free-Holding H (dropped call p) free = tt
free-Holding H (returned call reply) free = tt

pub Holding-map :
    (H H' : String → Product → Type 0) (pc : Pc)
    → ((id : String) (p : Product) → H id p → H' id p)
    → Holding H pc
    → Holding H' pc
Holding-map H H' (started call) f h = tt
Holding-map H H' (product_missed id) f h = tt
Holding-map H H' (product_read id p) f h = (h.0, f id p h.1)
Holding-map H H' (page_missed limit offset) f h = tt
Holding-map H H' (page_read limit offset ps) f h = tt
Holding-map H H' (stored call id p) f h = tt
Holding-map H H' (dropped call p) f h = tt
Holding-map H H' (returned call reply) f h = tt

abbrev pub AnyPage : ℤ → ℤ → List Product → Type 0
AnyPage limit offset ps = Unit

pub Holding-IsHeld :
    (K H : String → Product → Type 0) (pc : Pc)
    → IsReading pc
    → Holding H pc
    → IsHeld K H AnyPage pc
Holding-IsHeld K H (started call) reading h = tt
Holding-IsHeld K H (product_missed id) reading h = tt
Holding-IsHeld K H (product_read id p) reading h = h
Holding-IsHeld K H (page_missed limit offset) reading h = tt
Holding-IsHeld K H (page_read limit offset ps) reading h = tt
Holding-IsHeld K H (stored call id p) reading h = absurd reading
Holding-IsHeld K H (dropped call p) reading h = absurd reading
Holding-IsHeld K H (returned call reply) reading h = absurd reading

pub IsHeld-Holding :
    (K H : String → Product → Type 0) (pc : Pc) → IsHeld K H AnyPage pc → Holding H pc
IsHeld-Holding K H (started call) h = tt
IsHeld-Holding K H (product_missed id) h = tt
IsHeld-Holding K H (product_read id p) h = h
IsHeld-Holding K H (page_missed limit offset) h = tt
IsHeld-Holding K H (page_read limit offset ps) h = tt
IsHeld-Holding K H (stored call id p) h = tt
IsHeld-Holding K H (dropped call p) h = tt
IsHeld-Holding K H (returned call reply) h = tt
