-- ===== src/Errors.antt =====
-- Go's error values as the service uses them: sentinels compared by `errors.Is`, plain texts, and
-- errors wrapped by `fmt.Errorf` with %w. The domain's sentinels are those of
-- internal/domain/product.go; the other sentinels belong to the standard library and the drivers.
use Prim.Native.String.{◌++◌}
use shop_catalog_service.Common.{arith, ◌≡◌, String, Bool, true, false}

pub data Sentinel : Type 0 where
  product_not_found invalid_pagination product_already_exists invalid_product : Sentinel
  insufficient_stock : Sentinel
  -- redis.Nil, sql.ErrNoRows, context.Canceled, context.DeadlineExceeded and http.ErrServerClosed
  redis_nil no_rows canceled deadline_exceeded server_closed : Sentinel
  -- migrate.ErrNoChange, migrate.ErrNilVersion and io.EOF
  no_change nil_version end_of_file : Sentinel

pub data Error : Type 0 where
  sentinel : Sentinel → Error
  -- errors.New, and errors of the libraries
  plain : String → Error
  -- fmt.Errorf("<before>%w<after>", e)
  wrap : String → Error → String → Error

abbrev same_sentinel : Sentinel → Sentinel → Bool
same_sentinel product_not_found product_not_found = true
same_sentinel invalid_pagination invalid_pagination = true
same_sentinel product_already_exists product_already_exists = true
same_sentinel invalid_product invalid_product = true
same_sentinel insufficient_stock insufficient_stock = true
same_sentinel redis_nil redis_nil = true
same_sentinel no_rows no_rows = true
same_sentinel canceled canceled = true
same_sentinel deadline_exceeded deadline_exceeded = true
same_sentinel server_closed server_closed = true
same_sentinel no_change no_change = true
same_sentinel nil_version nil_version = true
same_sentinel end_of_file end_of_file = true
same_sentinel _ _ = false

-- errors.Is
abbrev pub error_is : Error → Sentinel → Bool
error_is (sentinel s) t = same_sentinel s t
error_is (plain _) t = false
error_is (wrap _ e _) t = error_is e t

unfoldable pub sentinel_text : Sentinel → String
sentinel_text product_not_found = "product not found"
sentinel_text invalid_pagination = "invalid pagination"
sentinel_text product_already_exists = "product already exists"
sentinel_text invalid_product = "invalid product data"
sentinel_text insufficient_stock = "insufficient stock"
sentinel_text redis_nil = "redis: nil"
sentinel_text no_rows = "sql: no rows in result set"
sentinel_text canceled = "context canceled"
sentinel_text deadline_exceeded = "context deadline exceeded"
sentinel_text server_closed = "http: Server closed"
sentinel_text no_change = "no change"
sentinel_text nil_version = "no migration"
sentinel_text end_of_file = "EOF"

-- err.Error()
unfoldable pub message : Error → String
unfolding sentinel_text
message (sentinel s) = sentinel_text s
message (plain text) = text
message (wrap before e after) = before ++ (message e ++ after)

-- One sentinel at most is found in an error.
pub error_is_unique :
    (e : Error) (s t : Sentinel) → error_is e s ≡ true → error_is e t ≡ true → s ≡ t
error_is_unique (sentinel x) s t p q = ground arith
error_is_unique (plain _) s t p q = cc
error_is_unique (wrap _ e _) s t p q = error_is_unique e s t p q
