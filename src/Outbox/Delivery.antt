-- ===== src/Outbox/Delivery.antt =====
-- internal/outbox/publisher.go: what a tick does to the rows of the table, whatever fails in it.
use shop_catalog_service.Common.{
  eq_iff, Bool-cases, suc, ℕ, ◌≡◌, zero, suc, refl, sym, ◌⊎◌, inl, inr, String, Bool, true, false,
  List, [], ◌∷◌, str_eq,
}
use shop_catalog_service.Common.Lists.{All, take}
use shop_catalog_service.Events.{Message}
use shop_catalog_service.Outbox.Table.{select, pending, Keyed, bumped, sent, Row, map_rows, Event}
use mathlib.Core.Path.{subst}
use shop_catalog_service.Outbox.Environment.{message_of}
use shop_catalog_service.Outbox.Pending.{pending-Others}

-- The row is of another event, or of this one.
abbrev pub IsRowOf : Event → Row → Type 0
IsRowOf e row = (str_eq row.event.id e.id ≡ false) ⊎ (row.event ≡ e)

-- No event of the list shares its id with the row of another.
abbrev pub AreRowsOf : List Row → List Event → Type 0
AreRowsOf t = All (λ e. All (IsRowOf e) t)

pub All-map_rows :
    {A B : Type 0} (P : A → Type 0) (Q : B → Type 0) (f : A → B)
    → ((a : A) → P a → Q (f a))
    → (xs : List A) → All P xs
    → All Q (map_rows f xs)
All-map_rows P Q f h [] _ = tt
All-map_rows P Q f h (x ∷ xs) (px, hx) = (h x px, All-map_rows P Q f h xs hx)

pub All-imp :
    {A : Type 0} (P Q : A → Type 0) → ((a : A) → P a → Q a) → (xs : List A) → All P xs → All Q xs
All-imp P Q h [] _ = tt
All-imp P Q h (x ∷ xs) (px, hx) = (h x px, All-imp P Q h xs hx)

pub All-both :
    {A : Type 0} (P Q R : A → Type 0)
    → ((a : A) → P a → Q a → R a)
    → (xs : List A) → All P xs
    → All Q xs
    → All R xs
All-both P Q R h [] _ _ = tt
All-both P Q R h (x ∷ xs) (px, hx) (qx, kx) = (h x px qx, All-both P Q R h xs hx kx)

pub All-take : {A : Type 0} (P : A → Type 0) (n : ℕ) (xs : List A) → All P xs → All P (take n xs)
All-take P zero xs h = tt
All-take P (suc n) [] h = tt
All-take P (suc n) (x ∷ xs) (px, hx) = (px, All-take P n xs hx)

str_eq-false_sym : (x y : String) → str_eq x y ≡ false → str_eq y x ≡ false
str_eq-false_sym x y h = elim (Bool-cases (str_eq y x)) [
  | inl c ↦
      let same : y ≡ x = (eq_iff y x).0 c in
      let t : str_eq x y ≡ true = (eq_iff x y).1 (sym same) in cc
  | inr c ↦ c
]

select-AreRowsOf :
    (row : Row) (t : List Row)
    → Keyed (row ∷ t)
    → (c : Bool) → AreRowsOf (row ∷ t) (pending t)
    → AreRowsOf (row ∷ t) (select c row.event (pending t))
select-AreRowsOf row t k true others = (
  (
    inr refl,
    All-imp (λ (other : Row). str_eq other.event.id row.event.id ≡ false) (IsRowOf row.event)
        (λ other h. inl h) t k.0,
  ),
  others,
)
select-AreRowsOf row t k false others = others

-- The events that wait are those of their rows, by the primary key.
pub pending-AreRowsOf : (t : List Row) → Keyed t → AreRowsOf t (pending t)
pending-AreRowsOf [] k = tt
pending-AreRowsOf (row ∷ t) k = select-AreRowsOf row t k (str_eq row.status "pending") (
    All-both (λ (e : Event). str_eq e.id row.event.id ≡ false) (λ e. All (IsRowOf e) t)
      (λ e. All (IsRowOf e) (row ∷ t))
      (λ e h rest. (inl (str_eq-false_sym e.id row.event.id h), rest)) (pending t)
      (pending-Others row.event.id t k.0) (pending-AreRowsOf t k.1))

-- The UPDATEs leave the events.
pub sent_event : (id : String) (row : Row) → (sent id row).event ≡ row.event
sent_event id row = elim (Bool-cases (str_eq row.event.id id)) [
  | inl h ↦ rw h refl
  | inr h ↦ rw h refl
]

pub bumped_event : (message id : String) (row : Row) → (bumped message id row).event ≡ row.event
bumped_event message id row = elim (Bool-cases (str_eq row.event.id id)) [
  | inl h ↦ rw h refl
  | inr h ↦ rw h refl
]

pub map_rows-AreRowsOf :
    (f : Row → Row) (t : List Row)
    → ((row : Row) → (f row).event ≡ row.event)
    → (es : List Event) → AreRowsOf t es
    → AreRowsOf (map_rows f t) es
map_rows-AreRowsOf f t h =
    All-imp (λ e. All (IsRowOf e) t) (λ e. All (IsRowOf e) (map_rows f t))
      (λ e.
        All-map_rows (IsRowOf e) (IsRowOf e) f
          (λ row. subst (λ (x : Event). (str_eq x.id e.id ≡ false) ⊎ (x ≡ e)) (sym (h row))) t)

-- The row waits, or is marked as sent and its message is in the broker's log.
abbrev pub IsDelivered : (Message → Type 0) → Row → Type 0
IsDelivered Has row =
    (row.status ≡ "pending") ⊎ ((row.status ≡ "sent") × Has (message_of row.event))

own_row : (e : Event) (row : Row) → IsRowOf e row → str_eq row.event.id e.id ≡ true → row.event ≡ e
own_row e row (inl n) c = cc
own_row e row (inr same) c = same

pub sent-IsDelivered :
    (Has : Message → Type 0) (e : Event) (row : Row)
    → Has (message_of e)
    → IsDelivered Has row
    → IsRowOf e row
    → IsDelivered Has (sent e.id row)
sent-IsDelivered Has e row h d r = elim (Bool-cases (str_eq row.event.id e.id)) [
  | inl c ↦ rw c (inr (refl, subst (λ (x : Event). Has (message_of x)) (sym (own_row e row r c)) h))
  | inr c ↦ rw c d
]

pub bumped-IsDelivered :
    (Has : Message → Type 0) (message id : String) (row : Row)
    → IsDelivered Has row
    → IsDelivered Has (bumped message id row)
bumped-IsDelivered Has message id row d = elim (Bool-cases (str_eq row.event.id id)) [
  | inl h ↦ rw h d
  | inr h ↦ rw h d
]

-- The broker's log has grown.
pub IsDelivered-imp :
    (Has Has' : Message → Type 0) (row : Row)
    → ((m : Message) → Has m → Has' m)
    → IsDelivered Has row
    → IsDelivered Has' row
IsDelivered-imp Has Has' row h (inl waits) = inl waits
IsDelivered-imp Has Has' row h (inr (sent, has)) = inr (sent, h (message_of row.event) has)
