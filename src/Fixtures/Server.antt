-- ===== src/Fixtures/Server.antt =====
-- A Redis server that keeps its entries in a list and whose calls all succeed, and a codec for one
-- product: they keep the promises that the cache relies on.
use shop_catalog_service.Common.{
  Bool-cases, not, str_eq-cases, ◌⊎◌, inr, ℕ, inl, ◌≡◌, refl, sym, ◌∙◌, ap, String, Bool, true,
  false, Option, none, some, List, [], ◌∷◌, ◌&&◌, str_eq, eq_iff, arith, if◌then◌else◌,
}
use shop_catalog_service.Common.Int.{pos, eqb_ℤ}
use shop_catalog_service.Common.Lists.{has_text}
use shop_catalog_service.Exec.{ok_inj, panic, Result, ok, err}
use shop_catalog_service.Errors.{sentinel, plain, redis_nil}
use shop_catalog_service.Redis.{Cache, RedisClient, Json, ProductCacheValue}
use shop_catalog_service.Redis.Server.{IsRedis, IsJson, Iterates, last, step}
use shop_catalog_service.Fixtures.{logger}
use shop_catalog_service.Repository.{Context}
use mathlib.Core.Path.{subst}

abbrev pub Entries : Type 0
Entries = List (String × String)

abbrev pub entry : Entries → String → Option String
entry [] k = none
entry ((k', v) ∷ r) k = if str_eq k' k then some v else entry r k

abbrev without : List String → Entries → Entries
without ks [] = []
without ks ((k, v) ∷ r) = let rest = without ks r in if has_text k ks then rest else (k, v) ∷ rest

abbrev pub keys : Entries → List String
keys [] = []
keys ((k, v) ∷ r) = k ∷ keys r

abbrev pub found : Option String → Result String
found none = err (sentinel redis_nil)
found (some v) = ok v

abbrev pub server : RedisClient Entries
server = record {
  get = λ ctx k r. (found (entry r k), r);
  set = λ ctx k v ttl r. (ok tt, (k, v) ∷ r);
  del = λ ctx ks r. (ok tt, without ks r);
  scan = λ ctx c pattern n r. (ok (keys r, 0), r);
}

abbrev pub cache : Cache Entries
cache = record { logger = logger; client = server; ttl = pos 60 }

entry-keys : (r : Entries) (k v : String) → entry r k ≡ some v → has_text k (keys r) ≡ true
entry-keys [] k v e = cc
entry-keys ((k', w) ∷ r) k v e = ground (arith, entry-keys r k v)

without_gone :
    (ks : List String) (r : Entries) (k : String)
    → has_text k ks ≡ true
    → entry (without ks r) k ≡ none
without_gone ks [] k h = refl
without_gone ks ((k', w) ∷ r) k h = ground (arith, without_gone ks r k h, eq_iff k' k)

entry-without :
    (ks : List String) (r : Entries) (k v : String)
    → entry (without ks r) k ≡ some v
    → entry r k ≡ some v
entry-without ks [] k v e = e
entry-without ks ((k', w) ∷ r) k v e =
    ground (arith, entry-without ks r k v, without_gone ks r k, eq_iff k' k)

complete :
    (ctx : Context) (r r' : Entries) (ks : List String)
    → Iterates entry server ctx 0 r ks r'
    → (k v : String) → entry r' k ≡ some v
    → has_text k ks ≡ true
complete ctx r r' ks (last _ _ _ _ e) k v found =
    subst (λ ks. has_text k ks ≡ true) (scanned e)
      (entry-keys r k v (ap (λ (x : Result (List String × ℕ) × Entries). entry x.1 k) e ∙ found))
  where
    page_keys : Result (List String × ℕ) → List String
    page_keys (ok x) = x.0
    page_keys (err x) = []
    page_keys panic = []

    scanned : {A B : Result (List String × ℕ) × Entries} → A ≡ B → page_keys A.0 ≡ page_keys B.0
    scanned e = ap (λ (x : Result (List String × ℕ) × Entries). page_keys x.0) e
complete ctx r r' _ (step _ _ _ _ _ _ _ e i) k v found =
    absurd (omega (arith, ap (λ (x : Result (List String × ℕ) × Entries). page_cursor x.0) e))
  where
    page_cursor : Result (List String × ℕ) → ℕ
    page_cursor (ok x) = x.1
    page_cursor (err x) = 0
    page_cursor panic = 0

pub server-IsRedis : IsRedis entry server
server-IsRedis = record {
  get_shrinks = λ ctx k r k' v e. e;
  get_value = λ ctx k v r e. got (entry r k) v e;
  set_entry = λ ctx k v ttl r k' v' e. stored k v r k' v' e;
  del_shrinks = λ ctx ks r k v e. entry-without ks r k v e;
  del_gone = λ ctx ks r e k h. without_gone ks r k h;
  scan_shrinks = λ ctx c p n r k v e. e;
  scan_complete = λ ctx r r' ks i k v listed e. complete ctx r r' ks i k v e;
}
  where
    got : (o : Option String) (v : String) → found o ≡ ok v → o ≡ some v
    got none v e = cc
    got (some w) v e = cc

    stored :
        (k v : String) (r : Entries) (k' v' : String)
        → entry ((k, v) ∷ r) k' ≡ some v'
        → ((k' ≡ k) × (v' ≡ v)) ⊎ (entry r k' ≡ some v')
    stored k v r k' v' e = elim (str_eq-cases k k') [
      | inl (same, p) ↦ inl (sym p, ground arith)
      | inr (ne, _) ↦ inr (ground arith)
    ]

-- A codec that writes one product, and pages of that product alone.
abbrev same_flag : Bool → Bool → Bool
same_flag true b = b
same_flag false b = not b

abbrev same_value : ProductCacheValue → ProductCacheValue → Bool
same_value v w =
    str_eq v.id w.id
    && (str_eq v.sku w.sku
        && (str_eq v.name w.name
            && (str_eq v.description w.description
                && (eqb_ℤ v.price_cents w.price_cents
                    && (str_eq v.currency w.currency
                        && (eqb_ℤ v.stock w.stock && same_flag v.active w.active))))))

same_value_lem : (v w : ProductCacheValue) → same_value v w ≡ true → v ≡ w
same_value_lem v w h i = record {
  id = fields.0 i;
  sku = fields.1 i;
  name = fields.2 i;
  description = fields.3 i;
  price_cents = fields.4 i;
  currency = fields.5 i;
  stock = fields.6 i;
  active = fields.7 i;
}
  where
    fields :
        (v.id ≡ w.id)
        × (v.sku ≡ w.sku)
        × (v.name ≡ w.name)
        × (v.description ≡ w.description)
        × (v.price_cents ≡ w.price_cents)
        × (v.currency ≡ w.currency)
        × (v.stock ≡ w.stock)
        × (v.active ≡ w.active)
    fields = ground (
      arith,
      h,
      eq_iff v.id w.id,
      eq_iff v.sku w.sku,
      eq_iff v.name w.name,
      eq_iff v.description w.description,
      eq_iff v.currency w.currency,
    )

abbrev pub mug_value : ProductCacheValue
mug_value = record {
  id = "prod-1";
  sku = "SKU-MUG";
  name = "Mug";
  description = "A mug";
  price_cents = pos 1599;
  currency = "USD";
  stock = pos 30;
  active = true;
}

abbrev marshal_items : List ProductCacheValue → Result String
marshal_items [] = ok "[]"
marshal_items (v ∷ []) = if same_value v mug_value then ok "[mug]" else err (plain "unsupported")
marshal_items (_ ∷ _ ∷ _) = err (plain "unsupported")

abbrev pub json : Json
json = record {
  marshal_product = λ v. if same_value v mug_value then ok "mug" else err (plain "unsupported");
  unmarshal_product = λ raw. if str_eq raw "mug" then ok mug_value else err (plain "syntax");
  marshal_list = λ v. marshal_items v.items;
  unmarshal_list = λ raw.
      if str_eq raw "[]"
      then ok (record { items = [] })
      else if str_eq raw "[mug]"
      then ok (record { items = mug_value ∷ [] })
      else err (plain "syntax");
}

pub json-IsJson : IsJson json
json-IsJson = record {
  product = λ v raw e. products v raw e (Bool-cases (same_value v mug_value));
  list = λ v raw e. lists v.items raw e;
}
  where
    products :
        (v : ProductCacheValue) (raw : String)
        → json.marshal_product v ≡ ok raw
        → (same_value v mug_value ≡ true) ⊎ (same_value v mug_value ≡ false)
        → json.unmarshal_product raw ≡ ok v
    products v raw e (inl same) =
        let written : ◌≡◌ {A = Result String} (ok "mug") (ok raw) =
          sym (ap (λ (b : Bool). if b then ok "mug" else err (plain "unsupported")) same) ∙ e in
        subst (λ raw. json.unmarshal_product raw ≡ ok v) (ok_inj written)
          (ap ok (sym (same_value_lem v mug_value same)))
    products v raw e (inr other) =
        let written : ◌≡◌ {A = Result String} (err (plain "unsupported")) (ok raw) =
          sym (ap (λ (b : Bool). if b then ok "mug" else err (plain "unsupported")) other) ∙ e in
        cc written

    one_item :
        (v : ProductCacheValue) (raw : String)
        → marshal_items (v ∷ []) ≡ ok raw
        → (same_value v mug_value ≡ true) ⊎ (same_value v mug_value ≡ false)
        → json.unmarshal_list raw ≡ ok (record { items = v ∷ [] })
    one_item v raw e (inl same) =
        let written : ◌≡◌ {A = Result String} (ok "[mug]") (ok raw) =
          sym (ap (λ (b : Bool). if b then ok "[mug]" else err (plain "unsupported")) same) ∙ e in
        subst (λ raw. json.unmarshal_list raw ≡ ok (record { items = v ∷ [] })) (ok_inj written)
          (ap (λ v. ok (record { items = v ∷ [] })) (sym (same_value_lem v mug_value same)))
    one_item v raw e (inr other) =
        let written : ◌≡◌ {A = Result String} (err (plain "unsupported")) (ok raw) =
          sym (ap (λ (b : Bool). if b then ok "[mug]" else err (plain "unsupported")) other) ∙ e in
        cc written

    lists :
        (vs : List ProductCacheValue) (raw : String)
        → marshal_items vs ≡ ok raw
        → json.unmarshal_list raw ≡ ok (record { items = vs })
    lists [] raw e =
        subst (λ raw. json.unmarshal_list raw ≡ ok (record { items = [] })) (ok_inj e) refl
    lists (v ∷ []) raw e = one_item v raw e (Bool-cases (same_value v mug_value))
    lists (v ∷ w ∷ vs) raw e = cc
