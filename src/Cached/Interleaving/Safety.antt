-- ===== src/Cached/Interleaving/Safety.antt =====
-- What holds of internal/repository/cached/product_repository.go in every state that calls of it reach
-- when they run at the same time.
use shop_catalog_service.Common.{
  inl, inr, ℕ, ◌==◌, if◌then◌else◌, Bool, true, false, ◌≡◌, refl, sym, String, Option, List, [],
  ◌∷◌,
}
use shop_catalog_service.Common.Int.{ℤ}
use shop_catalog_service.Common.Lists.{All}
use shop_catalog_service.Exec.{Result}
use shop_catalog_service.Domain.{Product}
use shop_catalog_service.Repository.{Context}
use shop_catalog_service.Service.Calls.{Call, Reply}
use shop_catalog_service.Redis.{Json}
use shop_catalog_service.Redis.Server.{IsRedis, IsJson}
use shop_catalog_service.Redis.Entries.{Holds, Holds-map, Shrinks-Holds}
use shop_catalog_service.Cached.{CachedRepository, CachedState}
use shop_catalog_service.Cached.Coherence.{Paged, Stored, IsSource, IsCoherent}
use shop_catalog_service.Cached.Steps.{Pc, started, returned, call_of, move}
use shop_catalog_service.Cached.Interleaving.{
  System, at_thread, stepped, Step, steps, calls, expires, Reaches, here, further,
}
use shop_catalog_service.Cached.Interleaving.Versions.{
  Known, KnownPage, IsAnswer, IsFair, IsFair-later,
}
use shop_catalog_service.Cached.Interleaving.Fair.Writes.{advance-IsHeld}
use mathlib.Core.Path.{subst}
use shop_catalog_service.Cached.Interleaving.Held.{settled-IsHeld}

module _ {R S : Type 0} (find : S → String → Option Product)
    (listing : S → ℤ → ℤ → Option (List Product)) (entries : R → String → Option String)
    (json : Json) (fuel : ℕ) (r : CachedRepository R S) (laws : IsRedis entries r.cache.client)
    (codec : IsJson json) where
  record IsSafe (s : System R S) : Type 0 where
    -- The history ends with the state that the next repository has.
    current : (rest : List S) × (s.past ≡ s.shared.store ∷ rest)
    cached :
        Holds entries json
          (Known find listing s.past)
          (KnownPage find listing s.past)
          s.shared.redis
    fair : (i : ℕ) → IsFair find listing s.past (s.pc i)

  -- In every state of the history the next repository's reads keep their promises.
  abbrev pub IsReadable : System R S → Type 0
  IsReadable s = All (IsSource r.next find listing) s.past

  at_thread-IsFair :
      (past : List S) (pcs : ℕ → Pc) (i : ℕ) (p : Pc)
      → IsFair find listing past p
      → ((j : ℕ) → IsFair find listing past (pcs j))
      → (j : ℕ) → IsFair find listing past (at_thread i p pcs j)
  at_thread-IsFair past pcs i p new old j = go (j == i)
    where
      go : (b : Bool) → IsFair find listing past (if b then p else pcs j)
      go true = new
      go false = old j

  -- The entries of the cache and what a call holds, at a history.
  abbrev Moved : CachedState R S → Pc → List S → Type 0
  Moved st pc past =
      Holds entries json (Known find listing past) (KnownPage find listing past) st.redis
      × IsFair find listing past pc

  Moved-later :
      (st : CachedState R S) (pc : Pc) (past : List S) (s : S)
      → Moved st pc past
      → Moved st pc (s ∷ past)
  Moved-later st pc past s (h, fair) = (
    Holds-map entries json (Known find listing past) (Known find listing (s ∷ past))
        (KnownPage find listing past) (KnownPage find listing (s ∷ past)) st.redis (λ id p k. inr k)
        (λ limit offset ps k. inr k) h,
    IsFair-later find listing s past pc fair,
  )

  move-Moved :
      (ctx : Context) (st : CachedState R S) (pc : Pc) (rest : List S)
      → IsSource r.next find listing st.store
      → Moved st pc (st.store ∷ rest)
      → let (pc', st') = move json fuel r ctx pc st in Moved st' pc' (st'.store ∷ st.store ∷ rest)
  unfolding move
  move-Moved ctx st pc rest source (h, fair) =
      let (after, post) =
        advance-IsHeld find listing entries json fuel r laws codec
          (Known find listing (st.store ∷ rest)) (Known find listing (st.store ∷ rest))
          (KnownPage find listing (st.store ∷ rest)) ctx st.store source (λ id p k. k)
          (λ id p k. inl k) (λ limit offset ps k. inl k) pc st refl h fair in
      Moved-later (move json fuel r ctx pc st).1 _ (st.store ∷ rest) _ (
        after,
        settled-IsHeld (Known find listing (st.store ∷ rest)) (Known find listing (st.store ∷ rest))
            (KnownPage find listing (st.store ∷ rest)) (call_of pc) _ post,
      )

  stepped-IsSafe :
      (ctx : Context) (i : ℕ) (s : System R S)
      → IsReadable s
      → IsSafe s
      → IsSafe (stepped json fuel r ctx i s)
  stepped-IsSafe ctx i s readable safe = record {
    current = (s.past, refl);
    cached = moved.0;
    fair =
        at_thread-IsFair (st'.store ∷ s.past) s.pc i _ moved.1
          (λ j. IsFair-later find listing st'.store s.past (s.pc j) (safe.fair j));
  }
    where
      st' : CachedState R S
      st' = (move json fuel r ctx (s.pc i) s.shared).1

      moved : Moved st' (move json fuel r ctx (s.pc i) s.shared).0 (st'.store ∷ s.past)
      moved =
          let (rest, e) = safe.current in
          subst (λ past. Moved st' (move json fuel r ctx (s.pc i) s.shared).0 (st'.store ∷ past))
            (sym e)
            (move-Moved ctx s.shared (s.pc i) rest
              (subst (All (IsSource r.next find listing)) e readable).0
              (subst (Moved s.shared (s.pc i)) e (safe.cached, safe.fair i)))

  Step-IsSafe :
      (s t : System R S) → Step json fuel r entries s t → IsReadable s → IsSafe s → IsSafe t
  Step-IsSafe s _ (steps ctx i) readable safe = stepped-IsSafe ctx i s readable safe
  Step-IsSafe s _ (calls i before call reply e) readable safe = record {
    current = safe.current;
    cached = safe.cached;
    fair = at_thread-IsFair s.past s.pc i (started call) tt safe.fair;
  }
  Step-IsSafe s _ (expires redis fewer) readable safe = record {
    current = safe.current;
    cached =
        Shrinks-Holds entries json (Known find listing s.past) (KnownPage find listing s.past)
          s.shared.redis redis fewer safe.cached;
    fair = safe.fair;
  }

  -- The history of a state is in that of the next.
  Step-IsReadable : (s t : System R S) → Step json fuel r entries s t → IsReadable t → IsReadable s
  Step-IsReadable s _ (steps ctx i) readable = readable.1
  Step-IsReadable s _ (calls i before call reply e) readable = readable
  Step-IsReadable s _ (expires redis fewer) readable = readable

  Reaches-IsSafe :
      (s t : System R S) → Reaches json fuel r entries s t → IsReadable t → IsSafe s → IsSafe t
  Reaches-IsSafe s _ here readable safe = safe
  Reaches-IsSafe s _ (further {t} {u} before step) readable safe =
      Step-IsSafe t u step (Step-IsReadable t u step readable)
        (Reaches-IsSafe s t before (Step-IsReadable t u step readable) safe)

  -- Every goroutine is before its first call, and the history begins with the state that the next
  -- repository has.
  pub record IsStart (s : System R S) : Type 0 where
    pub history : s.past ≡ s.shared.store ∷ []
    pub waits : (i : ℕ) → (call : Call) × (s.pc i ≡ started call)

  IsStart-IsSafe :
      (s : System R S) → IsStart s → IsCoherent entries json r find listing s.shared → IsSafe s
  IsStart-IsSafe s start coherent = record {
    current = ([], start.history);
    cached =
        subst
          (λ past.
            Holds entries json (Known find listing past) (KnownPage find listing past)
              s.shared.redis)
          (sym start.history)
          (Holds-map entries json (Stored find s.shared.store)
            (Known find listing (s.shared.store ∷ [])) (Paged listing s.shared.store)
            (KnownPage find listing (s.shared.store ∷ [])) s.shared.redis (λ id p h. inl h)
            (λ limit offset ps h. inl h) coherent);
    fair = λ i. let (call, e) = start.waits i in subst (IsFair find listing s.past) (sym e) tt;
  }

  -- Whatever calls of the five methods run at the same time, their steps in any order and entries of
  -- Redis expiring at any time, each call that has returned a product or a page for a read returned a
  -- version that the next repository had at some time since the start, and each entry that can be
  -- read from the cache is such a version: never a mixture of versions, another product's data, or
  -- data that was never stored. The cache must be coherent at the start, where every goroutine is
  -- before its first call, Redis and the JSON encoding must keep their documented promises, and the
  -- next repository's reads must keep theirs in each of its states.
  pub Reaches-IsAnswer :
      (s t : System R S)
      → IsStart s
      → IsCoherent entries json r find listing s.shared
      → Reaches json fuel r entries s t
      → IsReadable t
      → (i : ℕ) (call : Call) (reply : Result Reply) → t.pc i ≡ returned call reply
      → IsAnswer find listing t.past reply call
        × Holds entries json
            (Known find listing t.past)
            (KnownPage find listing t.past)
            t.shared.redis
  Reaches-IsAnswer s t start coherent reach readable i call reply e =
      let safe = Reaches-IsSafe s t reach readable (IsStart-IsSafe s start coherent) in
      (subst (IsFair find listing t.past) e (safe.fair i), safe.cached)
