-- ===== src/Cached/Interleaving/Fresh/Writes.antt =====
-- The step of a calm run at which a write of internal/repository/cached/product_repository.go calls the
-- next repository.
use shop_catalog_service.Cached.Interleaving.Fresh.{Current, IsFresh, IsFresh-same, Moved}
use shop_catalog_service.Common.{
  ℕ, ◌≡◌, ◌≢◌, refl, sym, ◌∙◌, ap, inl, inr, eq_refl, str_eq-cases, String, Option, List,
}
use shop_catalog_service.Common.Int.{ℤ}
use shop_catalog_service.Exec.{Result, ok, err, panic}
use shop_catalog_service.Exec.Ensures.{Post}
use shop_catalog_service.Domain.{Product}
use shop_catalog_service.Repository.{Context}
use shop_catalog_service.Service.Calls.{Call, list, get, create, update, stock}
use shop_catalog_service.Redis.{Json}
use shop_catalog_service.Redis.Server.{IsRedis, IsJson}
use shop_catalog_service.Redis.Entries.{Holds-map}
use shop_catalog_service.Cached.{CachedRepository, CachedState}
use shop_catalog_service.Cached.Coherence.{Stored}
use shop_catalog_service.Cached.Steps.{Pc, started, product_read, stored}
use shop_catalog_service.Cached.Interleaving.{at_thread}
use shop_catalog_service.Cached.Interleaving.Threads.{
  at_thread-all, DropsNext, Dirty, Dirty-own, Dirty-others, Holding, free-Holding, AnyPage,
}
use shop_catalog_service.Cached.Interleaving.Calm.{IsWriting, write_of, written_id, IsLawful}
use shop_catalog_service.Cached.Interleaving.Moves.{written, move-write}
use mathlib.Core.Path.{subst}

module _ {R S : Type 0} (find : S → String → Option Product)
    (listing : S → ℤ → ℤ → Option (List Product)) (entries : R → String → Option String)
    (json : Json) (fuel : ℕ) (r : CachedRepository R S) (laws : IsRedis entries r.cache.client)
    (codec : IsJson json) (ctx : Context) where
  -- The entry of a product that a write has changed is one that it is yet to drop, or there is none.
  own-Dirty :
      (s : S) (pcs : ℕ → Pc) (i : ℕ) (call : Call) (p q : Product) (id : String)
      → IsLawful r.next find listing s
      → IsWriting (started call)
      → (write_of r.next ctx call s).0 ≡ ok p
      → id ≡ written_id call p
      → Stored find s id q
      → Dirty (at_thread i (written call (ok p)) pcs) id
  own-Dirty s pcs i (list limit offset) p q id lawful w e own known = absurd w
  own-Dirty s pcs i (get k) p q id lawful w e own known = absurd w
  own-Dirty s pcs i (create cmd) p q id lawful w e own known =
      absurd (cc (lawful.fresh ctx cmd p e, ap (find s) own, known))
  own-Dirty s pcs i (update cmd) p q id lawful w e own known =
      Dirty-own pcs i (stored (update cmd) p.id p) id (sym own)
  own-Dirty s pcs i (stock k delta) p q id lawful w e own known =
      Dirty-own pcs i (stored (stock k delta) k p) id (sym own)

  written-Holding :
      (H : String → Product → Type 0) (call : Call) (x : Result Product)
      → Holding H (written call x)
  written-Holding H (list limit offset) (ok p) = tt
  written-Holding H (get id) (ok p) = tt
  written-Holding H (create cmd) (ok p) = tt
  written-Holding H (update cmd) (ok p) = tt
  written-Holding H (stock id delta) (ok p) = tt
  written-Holding H call (err e) = tt
  written-Holding H call panic = tt

  -- A write of the next repository, while no read holds a product.
  module _ (st : CachedState R S) (pcs : ℕ → Pc) (i : ℕ) (call : Call)
      (lawful : IsLawful r.next find listing st.store)
      (free : (j : ℕ) (id : String) (p : Product) → pcs j ≢ product_read id p)
      (w : IsWriting (started call)) (clean : (id : String) → DropsNext (pcs i) id → ⊥)
      (fresh : IsFresh find listing entries json st pcs) where
    abbrev Changed : Pc → Type 0
    Changed pc =
        IsFresh find listing entries json
          (record st { store = (write_of r.next ctx call st.store).1 }) (at_thread i pc pcs)

    failed-Changed :
        (x : Result Product)
        → Post (λ _. ⊥) (write_of r.next ctx call st.store).0
        → Changed (written call x)
    failed-Changed x post =
        IsFresh-same find listing entries json st _ pcs i _ (lawful.failed ctx call post)
          fresh.cached fresh.held clean (written-Holding (Stored find st.store) call x)

    ok-Changed :
        (p : Product) → (write_of r.next ctx call st.store).0 ≡ ok p → Changed (written call (ok p))
    ok-Changed p e = record {
      cached =
          Holds-map entries json (Current find listing entries json st.store pcs)
            (Current find listing entries json after_store after_pcs) AnyPage AnyPage st.redis later
            (λ _ _ _ _. tt) fresh.cached;
      held =
          at_thread-all (Holding (Stored find after_store)) pcs i (written call (ok p))
            (written-Holding (Stored find after_store) call (ok p))
            (λ j. free-Holding (Stored find after_store) (pcs j) (free j));
    }
      where
        after_store : S
        after_store = (write_of r.next ctx call st.store).1

        after_pcs : ℕ → Pc
        after_pcs = at_thread i (written call (ok p)) pcs

        later :
            (id : String) (q : Product)
            → Current find listing entries json st.store pcs id q
            → Current find listing entries json after_store after_pcs id q
        later id q (inl known) = elim (str_eq-cases id (written_id call p)) [
          | inl (_, own) ↦ inr (own-Dirty st.store pcs i call p q id lawful w e own known)
          | inr (ne, _) ↦ inl (
              lawful.changes ctx call p e id (λ own. cc (ne, eq_refl (written_id call p), own))
              ∙ known)
        ]
        later id q (inr dirty) = inr (Dirty-others pcs i _ id (clean id) dirty)

    any-Changed :
        (x : Result Product) → (write_of r.next ctx call st.store).0 ≡ x → Changed (written call x)
    any-Changed (ok p) e = ok-Changed p e
    any-Changed (err e) is_err = failed-Changed (err e) (subst (Post (λ _. ⊥)) (sym is_err) tt)
    any-Changed panic is_panic = failed-Changed panic (subst (Post (λ _. ⊥)) (sym is_panic) tt)

    pub write-IsFresh :
        Moved find listing entries json fuel r laws codec ctx st pcs i (started call)
    write-IsFresh =
        subst (λ m. IsFresh find listing entries json m.1 (at_thread i m.0 pcs))
          (sym (move-write json fuel r ctx call st w))
          (any-Changed (write_of r.next ctx call st.store).0 refl)
