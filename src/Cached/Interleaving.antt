-- ===== src/Cached/Interleaving.antt =====
-- Calls of internal/repository/cached/product_repository.go that run at the same time, on one Redis server
-- and one next repository, their steps in any order.
pub mod Held
pub mod Versions
pub mod Fair
pub mod Safety
pub mod Threads
pub mod Calm
pub mod Moves
pub mod Fresh
pub mod Runs
use shop_catalog_service.Common.{ℕ, ◌==◌, if◌then◌else◌, ◌≡◌, String, Option, List, [], ◌∷◌}
use shop_catalog_service.Exec.{Result}
use shop_catalog_service.Repository.{Context}
use shop_catalog_service.Service.Calls.{Call, Reply}
use shop_catalog_service.Redis.{Json}
use shop_catalog_service.Redis.Server.{Shrinks}
use shop_catalog_service.Cached.{CachedRepository, CachedState}
use shop_catalog_service.Cached.Steps.{Pc, started, returned, move}

-- The shared state, where each goroutine stands, and the states that the next repository has had,
-- the latest first.
pub record System (R S : Type 0) : Type 0 where
  pub shared : CachedState R S
  pub pc : ℕ → Pc
  pub past : List S

abbrev pub at_thread : ℕ → Pc → (ℕ → Pc) → ℕ → Pc
at_thread i p pcs j = if j == i then p else pcs j

module _ {R S : Type 0} (json : Json) (fuel : ℕ) (r : CachedRepository R S) where
  -- A goroutine takes its next step.
  abbrev pub stepped : Context → ℕ → System R S → System R S
  stepped ctx i s =
      let (p, st) = move json fuel r ctx (s.pc i) s.shared in
      record { shared = st; pc = at_thread i p s.pc; past = st.store ∷ s.past }

  -- A goroutine that has returned makes its next call.
  abbrev pub called : ℕ → Call → System R S → System R S
  called i call s = record s { pc = at_thread i (started call) s.pc }

  -- Entries of Redis expire, or go otherwise.
  abbrev pub expired : R → System R S → System R S
  expired redis s = record s { shared = record s.shared { redis = redis } }

  module _ (entries : R → String → Option String) where
    pub data Step (s : System R S) : System R S → Type 0 where
      steps : (ctx : Context) (i : ℕ) → Step s (stepped ctx i s)
      calls :
          (i : ℕ) (before call : Call) (reply : Result Reply)
          → s.pc i ≡ returned before reply
          → Step s (called i call s)
      expires : (redis : R) → Shrinks entries s.shared.redis redis → Step s (expired redis s)

    pub data Reaches (s : System R S) : System R S → Type 0 where
      here : Reaches s s
      further : {t u : System R S} → Reaches s t → Step t u → Reaches s u
