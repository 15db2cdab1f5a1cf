-- ===== src/Outbox/Pending.antt =====
-- The events that wait in the table, under the statements of the publisher and of the repository.
use shop_catalog_service.Common.{
  eq_refl, arith, ◌≡◌, refl, ◌∙◌, String, Bool, true, false, if◌then◌else◌, List, [], ◌∷◌, ◌++◌,
  str_eq,
}
use shop_catalog_service.Common.Lists.{All}
use shop_catalog_service.Outbox.Table.{
  Event, Row, pending_row, sent, bumped, map_rows, pending, select, Keyed,
}
use mathlib.Core.Path.{subst}

-- The events of another id.
abbrev pub without : String → List Event → List Event
without id [] = []
without id (e ∷ es) = if str_eq e.id id then without id es else e ∷ without id es

pub pending-bumped :
    (message id : String) (t : List Row) → pending (map_rows (bumped message id) t) ≡ pending t
pending-bumped message id [] = refl
pending-bumped message id (row ∷ t) = ground (arith, pending-bumped message id t)

not_waiting : str_eq "sent" "pending" ≡ false
not_waiting = refl

-- The head of the table: whether the statement is about it, and whether it waits.
sent_head :
    (id : String) (row : Row) (b c : Bool) (es : List Event)
    → str_eq row.event.id id ≡ b
    → str_eq row.status "pending" ≡ c
    → select (str_eq (sent id row).status "pending") (sent id row).event (without id es)
      ≡ without id (select (str_eq row.status "pending") row.event es)
sent_head id row true true es h k = simp (h, k)
sent_head id row true false es h k = simp (h, k)
sent_head id row false true es h k = simp (h, k)
sent_head id row false false es h k = simp (h, k)

pub pending-sent :
    (id : String) (t : List Row) → pending (map_rows (sent id) t) ≡ without id (pending t)
pending-sent id [] = refl
pending-sent id (row ∷ t) =
    rw (pending-sent id t) (
      sent_head id row (str_eq row.event.id id) (str_eq row.status "pending") (pending t) refl refl)

pending-append :
    (t : List Row) (e : Event) → pending (t ++ pending_row e ∷ []) ≡ pending t ++ e ∷ []
pending-append [] e = refl
pending-append (row ∷ t) e = ground (arith, pending-append t e)

abbrev Others : String → List Event → Type 0
Others id = All (λ (e : Event). str_eq e.id id ≡ false)

-- Rows of other ids are not touched.
without-Others : (id : String) (es : List Event) → Others id es → without id es ≡ es
without-Others id [] h = refl
without-Others id (e ∷ es) h = ground (arith, h.0, without-Others id es h.1)

pub pending-Others :
    (id : String) (t : List Row)
    → All (λ (other : Row). str_eq other.event.id id ≡ false) t
    → Others id (pending t)
pending-Others id [] h = tt
pending-Others id (row ∷ t) h = ground (arith, h.0, pending-Others id t h.1)

own_first : (e : Event) (es : List Event) → Others e.id es → without e.id (e ∷ es) ≡ es
own_first e es h = rw (eq_refl e.id) (without-Others e.id es h)

-- Either the head is the first that waits, or the first that waits is another row.
first_waiting :
    (row : Row) (t : List Row) (e : Event) (es : List Event)
    → Keyed (row ∷ t)
    → (pending t ≡ e ∷ es → without e.id (pending t) ≡ es)
    → (c : Bool) → select c row.event (pending t) ≡ e ∷ es
    → without e.id (select c row.event (pending t)) ≡ es
first_waiting row t e es k ih true h =
    let same : row.event ≡ e = cc in
    let rest : pending t ≡ es = cc in
    subst (λ (x : Event). without x.id (row.event ∷ pending t) ≡ es) same
      (own_first row.event (pending t) (pending-Others row.event.id t k.0) ∙ rest)
first_waiting row t e es k ih false h = ih h

-- Marking the first event that waits takes just this one off.
pub without-first :
    (t : List Row) (e : Event) (es : List Event)
    → Keyed t
    → pending t ≡ e ∷ es
    → without e.id (pending t) ≡ es
without-first [] e es k h = cc
without-first (row ∷ t) e es k h =
    first_waiting row t e es k (without-first t e es k.1) (str_eq row.status "pending") h
