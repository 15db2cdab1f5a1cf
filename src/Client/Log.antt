-- ===== src/Client/Log.antt =====
-- The log of cmd/catalog-client/main.go, where the service answers.
use shop_catalog_service.Common.{
  ℕ, zero, suc, ◌<◌, ◌≡◌, refl, String, Option, List, [], ◌∷◌, ◌++◌, arith,
}
use mathlib.Core.List.{append_assoc, append-nil}
use shop_catalog_service.Common.Lists.{length}
use shop_catalog_service.Errors.{sentinel, end_of_file}
use shop_catalog_service.Exec.{ok, err}
use shop_catalog_service.Grpc.{ProtoProduct, ListResponse}
use shop_catalog_service.Client.{
  Flags, Network, receive, item_line, product_line, list_line, talk, after_dial, main, request_of,
}

module _ {C T F N : Type 0} (net : Network C T F N) where
  -- A stream that gives these messages and then io.EOF, with the network before and after.
  pub data Streams (stream : T) : N → List (Option (ProtoProduct F)) → N → Type 0 where
    ends :
        (n n' : N) → net.recv stream n ≡ (err (sentinel end_of_file), n') → Streams stream n [] n'
    gives :
        (n n' n'' : N) (p : Option (ProtoProduct F)) (ps : List (Option (ProtoProduct F)))
        → net.recv stream n ≡ (ok p, n')
        → Streams stream n' ps n''
        → Streams stream n (p ∷ ps) n''

  abbrev pub item_lines : List (Option (ProtoProduct F)) → List String
  item_lines [] = []
  item_lines (p ∷ ps) = item_line net p ∷ item_lines ps

  receive_all :
      (fuel : ℕ) (stream : T) (ps : List (Option (ProtoProduct F))) (lines : List String) (n n' : N)
      → length ps < fuel
      → Streams stream n ps n'
      → receive net fuel stream (record { lines = lines; net = n })
        ≡ (ok tt, record { lines = lines ++ item_lines ps; net = n' })
  unfolding receive
  receive_all zero stream ps lines n n' enough s = absurd (omega (arith, enough))
  receive_all (suc fuel) stream [] lines n n' enough (ends _ _ e) = rw (e, append-nil lines) refl
  receive_all (suc fuel) stream (p ∷ ps) lines n n' enough (gives _ n₁ _ _ _ e s) =
      rw
        (
          e,
          receive_all fuel stream ps (lines ++ item_line net p ∷ []) n₁ n' (omega (arith, enough))
              s,
          append_assoc lines (item_line net p ∷ []) (item_lines ps),
        )
        refl

  -- Where the service can be reached and answers the three calls, and its stream gives some messages
  -- and then ends, the client exits with 0 once it has read the stream to its end, and its log has the
  -- answers of the first two calls and then a line for each message of the stream, in order and also
  -- for one without a product, between those that say that the stream starts and ends; the fuel must
  -- be more than the messages.
  pub main_log :
      (fuel : ℕ) (flags : Flags) (n₀ n₁ n₂ n₃ n₄ n₅ : N) (conn : C) (listed : ListResponse F)
      (product : Option (ProtoProduct F)) (stream : T) (ps : List (Option (ProtoProduct F)))
      → net.dial flags.addr n₀ ≡ (ok conn, n₁)
      → net.list_products conn (request_of net flags) n₁ ≡ (ok listed, n₂)
      → net.get_product conn flags.id n₂ ≡ (ok product, n₃)
      → net.stream_products conn (request_of net flags) n₃ ≡ (ok stream, n₄)
      → Streams stream n₄ ps n₅
      → length ps < fuel
      → main net fuel flags n₀ ≡ (
        0,
        record {
          lines =
              list_line net listed
                ∷ product_line net product
                ∷ "StreamProducts started"
                ∷ item_lines ps
              ++ "StreamProducts completed" ∷ [];
          net = (net.close conn n₅).1;
        },
      )
  unfolding main after_dial talk
  main_log fuel flags n₀ n₁ n₂ n₃ n₄ n₅ conn listed product stream ps dialled listing got streaming
        s enough =
      rw
        (
          dialled,
          listing,
          got,
          streaming,
          receive_all fuel stream ps
              (list_line net listed ∷ product_line net product ∷ "StreamProducts started" ∷ []) n₄
              n₅ enough s,
        )
        refl
