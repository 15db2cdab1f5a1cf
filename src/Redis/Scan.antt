-- ===== src/Redis/Scan.antt =====
-- InvalidateListCache of internal/repository/redis/cache.go: the loop over SCAN, and the deletion.
use shop_catalog_service.Redis.{delete_found, list_pattern, invalidate_list_cache, scan_loop, Cache}
use shop_catalog_service.Redis.Server.{step, last, Iterates, Shrinks, IsRedis}
use shop_catalog_service.Common.{
  inr, inl, false, Bool-cases, true, ◌∙◌, some, arith, zero, suc, refl, none, ◌++◌, [], ◌∷◌, ◌≡◌,
  ◌≤◌, List, ℕ, Option, String,
}
use shop_catalog_service.Exec.{pure, fail, continue, Result, ok, err, panic}
use shop_catalog_service.Repository.{Context}
use shop_catalog_service.Redis.Keys.{IsListKey}
use shop_catalog_service.Exec.Ensures.{Ensures-pure, Ensures-fail, any, Ensures-handle, Ensures}
use mathlib.Core.List.{append_assoc}
use shop_catalog_service.Common.Lists.{has_text}

module _ {R : Type 0} (entries : R → String → Option String) (cache : Cache R) (ctx : Context) where
  -- The number of SCAN calls of a full iteration.
  abbrev rounds :
      {c : ℕ} {r r' : R} {keys : List String} → Iterates entries cache.client ctx c r keys r' → ℕ
  rounds (last _ _ _ _ _) = 1
  rounds (step _ _ _ _ _ _ _ _ i) = suc (rounds i)

  -- Where the server makes a full SCAN iteration, the loop ends with the keys found before and those
  -- of the iteration, as soon as the fuel covers the iteration's calls.
  pub scan_loop_enough :
      (fuel c : ℕ) (r r' : R) (keys found : List String)
      (i : Iterates entries cache.client ctx c r keys r')
      → rounds i ≤ fuel
      → scan_loop cache ctx fuel c found r ≡ (ok (found ++ keys), r')
  unfolding scan_loop
  scan_loop_enough zero c r r' keys found (last _ _ _ _ e) h = absurd (omega arith)
  scan_loop_enough zero c r r' _ found (step _ n _ s _ keys rest e i) h = absurd (omega arith)
  scan_loop_enough (suc f) c r r' keys found (last _ _ _ _ e) h = rw e
  scan_loop_enough (suc f) c r r' _ found (step _ n _ s _ keys rest e i) h =
      rw (e, scan_loop_enough f (suc n) s r' rest (found ++ keys) i (omega arith), append_assoc)

  -- A loop that ends has made a full iteration.
  scan_loop-Iterates :
      (fuel c : ℕ) (r r' : R) (found all : List String)
      → scan_loop cache ctx fuel c found r ≡ (ok all, r')
      → (keys : List String) × Iterates entries cache.client ctx c r keys r' × (all ≡ found ++ keys)
  unfolding scan_loop
  scan_loop-Iterates zero c r r' found all e = cc
  scan_loop-Iterates (suc f) c r r' found all e =
      go (cache.client.scan ctx c list_pattern 100 r).0
        (cache.client.scan ctx c list_pattern 100 r).1 refl
        (λ n s keys. scan_loop-Iterates f (suc n) s r' (found ++ keys) all) e
    where
      go :
          (p : Result (List String × ℕ)) (s : R)
          → cache.client.scan ctx c list_pattern 100 r ≡ (p, s)
          → ((n : ℕ) (s : R) (keys : List String)
              → scan_loop cache ctx f (suc n) (found ++ keys) s ≡ (ok all, r')
              → (rest : List String) × Iterates entries cache.client ctx (suc n) s rest r'
                × (all ≡ (found ++ keys) ++ rest))
          → continue p fail
              (λ page. elim page.1 [
                | zero ↦ pure (found ++ page.0)
                | suc n ↦ scan_loop cache ctx f (suc n) (found ++ page.0)
              ])
              s
            ≡ (ok all, r')
          → (keys : List String) × Iterates entries cache.client ctx c r keys r'
            × (all ≡ found ++ keys)
      go (ok (keys, zero)) s q next e = (keys, last c r r' keys (q ∙ cc), cc)
      go (ok (keys, suc n)) s q next e =
          let (rest, i, whole) = next n s keys e in
          (keys ++ rest, step c n r s r' keys rest q i, whole ∙ append_assoc found keys rest)
      go (err x) s q next e = cc
      go panic s q next e = cc

  absent :
      (o : Option String) (keys : List String) (key : String)
      → ((v : String) → o ≡ some v → has_text key keys ≡ true)
      → has_text key keys ≡ false
      → o ≡ none
  absent none keys key h k = refl
  absent (some v) keys key h k = cc (h v refl, k)

  deleted :
      (keys : List String) (key : String) (s : R)
      → IsRedis entries cache.client
      → ((v : String) → entries s key ≡ some v → has_text key keys ≡ true)
      → (delete_found cache ctx keys s).0 ≡ ok tt
      → entries (delete_found cache ctx keys s).1 key ≡ none
  unfolding delete_found
  deleted [] key s laws h e = absent (entries s key) [] key h refl
  deleted (k ∷ ks) key s laws h e = elim (Bool-cases (has_text key (k ∷ ks))) [
    | inl in_keys ↦ laws.del_gone ctx (k ∷ ks) s e key in_keys
    | inr out ↦
        absent (entries (cache.client.del ctx (k ∷ ks) s).1 key) (k ∷ ks) key
          (λ v found. h v (laws.del_shrinks ctx (k ∷ ks) s key v found)) out
  ]

  -- Where InvalidateListCache succeeds, over a server that keeps its documented promises, no key
  -- under the pattern of pages is left in the cache.
  pub invalidate_list_cache_gone :
      (fuel : ℕ) (r : R)
      → IsRedis entries cache.client
      → (invalidate_list_cache cache ctx fuel r).0 ≡ ok tt
      → (key : String) → IsListKey key
      → entries (invalidate_list_cache cache ctx fuel r).1 key ≡ none
  unfolding invalidate_list_cache
  invalidate_list_cache_gone fuel r laws e key listed =
      go (scan_loop cache ctx fuel 0 [] r).0 (scan_loop cache ctx fuel 0 [] r).1 refl e
    where
      go :
          (p : Result (List String)) (s : R)
          → scan_loop cache ctx fuel 0 [] r ≡ (p, s)
          → (continue p fail (delete_found cache ctx) s).0 ≡ ok tt
          → entries (continue p fail (delete_found cache ctx) s).1 key ≡ none
      go (ok keys) s q e =
          let (all, i, whole) = scan_loop-Iterates fuel 0 r s [] keys q in
          deleted keys key s laws
            (λ v found. rw whole (laws.scan_complete ctx r s all i key v listed found)) e
      go (err x) s q e = cc
      go panic s q e = cc

  -- Whatever the results are, the loop and InvalidateListCache put nothing into the cache.
  module _ (r : R) (laws : IsRedis entries cache.client) where
    abbrev Within : R → Type 0
    Within s = Shrinks entries r s

    scan-Within :
        (c : ℕ) → Ensures Within (λ _. Unit {0}) (cache.client.scan ctx c list_pattern 100)
    scan-Within c = record {
      at = λ s i. (
        λ k v e. i k v (laws.scan_shrinks ctx c list_pattern 100 s k v e),
        any (cache.client.scan ctx c list_pattern 100 s).0,
      );
    }

    scan_loop-Within :
        (f c : ℕ) (found : List String)
        → Ensures Within (λ _. Unit {0}) (scan_loop cache ctx f c found)
    unfolding scan_loop
    scan_loop-Within zero c found = record { at = λ s i. (i, tt) }
    scan_loop-Within (suc f) c found =
        Ensures-handle Within (λ _. Unit {0}) (λ _. Unit {0}) _ _ _ (scan-Within c)
          (λ e. Ensures-fail Within (λ _. Unit {0}) e)
          (λ page _. again page.0 page.1 (λ n. scan_loop-Within f (suc n) (found ++ page.0)))
      where
        again :
            (keys : List String) (next : ℕ)
            → ((n : ℕ)
                → Ensures Within (λ _. Unit {0}) (scan_loop cache ctx f (suc n) (found ++ keys)))
            → Ensures Within
                (λ _. Unit {0})
                (elim next [
                  | zero ↦ pure (found ++ keys)
                  | suc n ↦ scan_loop cache ctx f (suc n) (found ++ keys)
                ])
        again keys zero h = Ensures-pure Within (λ _. Unit {0}) (found ++ keys) tt
        again keys (suc n) h = h n

    delete_found-Within :
        (keys : List String) → Ensures Within (λ _. Unit {0}) (delete_found cache ctx keys)
    unfolding delete_found
    delete_found-Within [] = Ensures-pure Within (λ _. Unit {0}) tt tt
    delete_found-Within (k ∷ ks) = record {
      at = λ s i. (
        λ key v e. i key v (laws.del_shrinks ctx (k ∷ ks) s key v e),
        any (cache.client.del ctx (k ∷ ks) s).0,
      );
    }

    pub invalidate_list_cache-Shrinks :
        (fuel : ℕ) → Shrinks entries r (invalidate_list_cache cache ctx fuel r).1
    unfolding invalidate_list_cache
    invalidate_list_cache-Shrinks fuel =
        ((Ensures-handle Within (λ _. Unit {0}) (λ _. Unit {0}) _ _ _ (scan_loop-Within fuel 0 [])
            (λ e. Ensures-fail Within (λ _. Unit {0}) e) (λ keys _. delete_found-Within keys)).at
          r (λ k v e. e)).0
