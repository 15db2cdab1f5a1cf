-- ===== src/Tests/Commands.antt =====
-- The commands and the set-up of the metrics at concrete values.
use shop_catalog_service.Common.{
  zero, suc, ◌≡◌, ◌↔◌, refl, arith, ℕ, String, Bool, true, false, Option, none, some, List, [], ◌∷◌,
  ◌++◌, if◌then◌else◌,
}
use shop_catalog_service.Common.Lists.{has_text}
use shop_catalog_service.Common.Int.{pos}
use shop_catalog_service.Common.Decimal.{int_text}
use shop_catalog_service.Errors.{sentinel, end_of_file, no_change}
use shop_catalog_service.Exec.{Result, ok, err, panic}
use shop_catalog_service.Observability.Metrics.{Vec, Registry, full_name}
use shop_catalog_service.Migrator
use shop_catalog_service.Migrator.{Migrations, Succeeds, default_flags, logged, printed}
use shop_catalog_service.Migrator.Status.{main_status}
use shop_catalog_service.Client
use shop_catalog_service.Client.{Network, receive, talk, after_dial}
use shop_catalog_service.Client.Log.{ends, gives, main_log, item_lines}
use shop_catalog_service.Grpc.{ProtoProduct}

-- A registry that keeps the full names, and panics on one that it has.
abbrev add_all : List Vec → List String → Result (Unit {0}) × List String
add_all [] names = (ok tt, names)
add_all (v ∷ vs) names =
    let rest = add_all vs (full_name v ∷ names) in
    if has_text (full_name v) names then (panic, names) else rest

abbrev registry : Registry (List String)
registry = record { must_register = add_all }

abbrev taken : List String → String → Bool
taken names k = has_text k names

-- A migrator over a version that only goes up, to 7.
abbrev seven : Migrations String String ℕ
seven = record {
  parse = λ text. ok text;
  with_query = λ url key value. url;
  open_at = λ source url n. (ok url, n);
  up = λ m n. (ok tt, 7);
  down = λ m n. (err (sentinel no_change), n);
  version = λ m n. (ok (n, false), n);
}

abbrev local : Migrator.Flags
local = record default_flags { dsn = "postgres://localhost/catalog" }

migrator_test :
    (Migrator.main seven local 3
      ≡ record { status = 0; lines = printed "migrations applied successfully" ∷ []; db = 7 })
    × (Migrator.main seven (record local { command = "version" }) 7
        ≡ record { status = 0; lines = printed "version=7 dirty=false" ∷ []; db = 7 })
    × (Migrator.main seven (record local { command = "redo" }) 7
        ≡ record { status = 1; lines = logged "unknown command: redo" ∷ []; db = 7 })
    × (Migrator.main seven default_flags 7
        ≡ record { status = 1; lines = logged "dsn is required" ∷ []; db = 7 })
unfolding Migrator.main int_text
migrator_test = (refl, refl, refl, refl)

main_status_example :
    (Migrator.main seven (record local { command = "down" }) 0).status ≡ 0
    ↔ Succeeds seven (record local { command = "down" }) 0
main_status_example = main_status seven (record local { command = "down" }) 0

-- A service whose stream gives two messages, the second without a product; the network counts them.
abbrev cup : ProtoProduct ℕ
cup = record {
  id = "prod-1";
  sku = "SKU-CUP";
  name = "Cup";
  description = "A cup";
  price = 15;
  currency = "USD";
  stock = 30;
  active = true;
  updated_at = "";
}

abbrev message_at : ℕ → Result (Option (ProtoProduct ℕ)) × ℕ
message_at n = elim n [
  | zero ↦ (ok (some cup), 1)
  | suc m ↦ elim m [ zero ↦ (ok none, 2) | suc _ ↦ (err (sentinel end_of_file), 3) ]
]

abbrev net : Network String String ℕ ℕ
net = record {
  dial = λ addr n. (ok addr, n);
  list_products = λ conn req n. (ok (record { items = cup ∷ []; total = 1 }), n);
  get_product = λ conn id n. (ok (some cup), n);
  stream_products = λ conn req n. (ok conn, n);
  recv = λ stream n. message_at n;
  close = λ conn n. (ok tt, n);
  price_text = λ p. int_text (pos p);
  no_price = 0;
}

main_log_example : Client.main net 3 Client.default_flags 0 ≡ (
  0,
  record {
    lines =
        Client.list_line net (record { items = cup ∷ []; total = 1 })
          ∷ Client.product_line net (some cup)
          ∷ "StreamProducts started"
          ∷ item_lines net (some cup ∷ none ∷ [])
        ++ "StreamProducts completed" ∷ [];
    net = 3;
  },
)
main_log_example =
    main_log net 3 Client.default_flags 0 0 0 0 0 3 "127.0.0.1:9091"
      (record { items = cup ∷ []; total = 1 }) (some cup) "127.0.0.1:9091" (some cup ∷ none ∷ [])
      refl refl refl refl (gives _ _ _ _ _ refl (gives _ _ _ _ _ refl (ends _ _ refl)))
      (omega arith)
