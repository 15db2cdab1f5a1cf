-- ===== src/Client.antt =====
-- cmd/catalog-client/main.go: the command that calls the three methods of the gRPC service, as its exit
-- status and its log. The flags come parsed; the connection and the generated client are parameters.
pub mod Log
use Prim.Native.String.{◌++◌ as str_append}
use shop_catalog_service.Common.{
  ℕ, zero, suc, ◌+◌, ◌<◌, ◌%◌, ◌^◌, ◌≡◌, refl, sym, ◌∙◌, ap, String, Bool, true, false, Option,
  none, some, List, [], ◌∷◌, ◌++◌, arith, if◌then◌else◌,
}
use shop_catalog_service.Common.Int.{pos}
use shop_catalog_service.Common.Decimal.{int_text}
use shop_catalog_service.Common.Lists.{length}
use shop_catalog_service.Errors.{Error, sentinel, plain, wrap, message, end_of_file}
use shop_catalog_service.Exec.{Result, ok, err, panic, Exec, pure, fail, crash, handle, ◌>>=◌, ◌>>◌}
use shop_catalog_service.Grpc.{ProtoProduct, ListRequest, ListResponse}

-- The four flags; limit and offset are uint.
pub record Flags : Type 0 where
  pub addr : String
  pub id : String
  pub limit : ℕ
  pub offset : ℕ

abbrev pub default_flags : Flags
default_flags = record { addr = "127.0.0.1:9091"; id = "prod-001"; limit = 3; offset = 0 }

-- grpc.Dial, the methods of catalogv1.CatalogServiceClient, Recv of a stream, and Close of the
-- connection, over the state of the network; a message without a product has none. `price_text` is
-- the verb %.2f, and `no_price` the zero float64.
pub record Network (C T F N : Type 0) : Type 0 where
  pub dial : String → Exec N C
  pub list_products : C → ListRequest → Exec N (ListResponse F)
  pub get_product : C → String → Exec N (Option (ProtoProduct F))
  pub stream_products : C → ListRequest → Exec N T
  pub recv : T → Exec N (Option (ProtoProduct F))
  pub close : C → Exec N (Unit {0})
  pub price_text : F → String
  pub no_price : F

-- The log so far, and the network.
pub record ClientState (N : Type 0) : Type 0 where
  pub lines : List String
  pub net : N

-- The test `err == io.EOF`.
abbrev is_eof : Error → Bool
is_eof (sentinel end_of_file) = true
is_eof _ = false

module _ {N : Type 0} where
  -- log.Printf
  abbrev pub print : String → Exec (ClientState N) (Unit {0})
  print text st = (ok tt, record st { lines = st.lines ++ text ∷ [] })

  abbrev on_net : {A : Type 0} → Exec N A → Exec (ClientState N) A
  on_net m st = let (r, net') = m st.net in (r, record st { net = net' })

  -- `if err != nil { log.Fatalf("<what>: %v", err) }`: the error is what the log is to say.
  abbrev or_fatal : {A : Type 0} → String → Exec N A → Exec (ClientState N) A
  or_fatal what m = handle (on_net m) (λ e. fail (wrap what e "")) pure

abbrev nat_text : ℕ → String
nat_text n = int_text (pos n)

module _ {C T F N : Type 0} (net : Network C T F N) where
  -- "<what> id=%s name=%s price=%.2f"
  line_text : String → String → String → F → String
  line_text what id name price = str_append what (
      str_append " id=" (
        str_append id
          (str_append " name=" (str_append name (str_append " price=" (net.price_text price))))))

  -- The getters of a nil product give the zero values.
  pub product_line : Option (ProtoProduct F) → String
  unfolding line_text
  product_line none = line_text "GetProduct" "" "" net.no_price
  product_line (some p) = line_text "GetProduct" p.id p.name p.price

  pub item_line : Option (ProtoProduct F) → String
  unfolding line_text
  item_line none = "StreamProducts item is empty"
  item_line (some p) = line_text "StreamProducts item" p.id p.name p.price

  -- The loop over Recv; without fuel it has not ended, which counts as a panic here.
  pub receive : ℕ → T → Exec (ClientState N) (Unit {0})
  unfolding item_line
  receive zero stream = crash
  receive (suc fuel) stream =
      let rest = receive fuel stream in
      handle (on_net (net.recv stream))
        (λ e. if is_eof e then pure tt else fail (wrap "StreamProducts recv: " e ""))
        (λ product. print (item_line product) >> rest)

  -- The request of the flags; uint32(x) keeps the low 32 bits.
  abbrev pub request_of : Flags → ListRequest
  request_of flags = record { limit = flags.limit % 2 ^ 32; offset = flags.offset % 2 ^ 32 }

  abbrev pub list_line : ListResponse F → String
  list_line response = str_append "ListProducts total=" (
      str_append (nat_text response.total)
        (str_append " items=" (nat_text (length response.items))))

  -- main behind Dial.
  pub talk : ℕ → Flags → C → Exec (ClientState N) (Unit {0})
  unfolding receive product_line
  talk fuel flags conn = do
    listed ← or_fatal "ListProducts: " (net.list_products conn (request_of flags))
    _ ← print (list_line listed)
    product ← or_fatal "GetProduct: " (net.get_product conn flags.id)
    _ ← print (product_line product)
    stream ← or_fatal "StreamProducts: " (net.stream_products conn (request_of flags))
    _ ← print "StreamProducts started"
    _ ← receive fuel stream
    print "StreamProducts completed"

  -- The exit status. The deferred Close runs where main returns or panics, not behind log.Fatalf.
  abbrev ended : C → Result (Unit {0}) × ClientState N → ℕ × ClientState N
  ended conn (ok _, st) = (0, record st { net = (net.close conn st.net).1 })
  ended conn (err e, st) = (1, record st { lines = st.lines ++ message e ∷ [] })
  ended conn (panic, st) = (2, record st { net = (net.close conn st.net).1 })

  pub after_dial : ℕ → Flags → Result C × ClientState N → ℕ × ClientState N
  unfolding talk
  after_dial fuel flags (ok conn, st) = ended conn (talk fuel flags conn st)
  after_dial fuel flags (err e, st) = (1, record st { lines = st.lines ++ message e ∷ [] })
  after_dial fuel flags (panic, st) = (2, st)

  -- main
  unfoldable pub main : ℕ → Flags → N → ℕ × ClientState N
  unfolding after_dial
  main fuel flags n =
      after_dial fuel flags
        (or_fatal "dial: " (net.dial flags.addr) (record { lines = []; net = n }))
