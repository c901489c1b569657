-- ===== src/Scheduler/Laws.antt =====
-- The batch that the scheduler takes.
use nudging_tool.Prelude.{
  ℕ, zero, suc, ◌≤◌, ◌≡◌, List, [], ◌∷◌, select, take, length, leb, arith, eq_iff, Bool-cases, inl,
  inr, All, All-select, All-take, All-map, length-take-le,
}
use nudging_tool.Db.{ScheduledEvent, Db}
use nudging_tool.Scheduler.{is_due, insert_by_trigger, sort_by_trigger, due_events}

-- Ordered by trigger time: each row is due no later than those behind it.
abbrev pub Sorted : List ScheduledEvent → Type 0
Sorted [] = Unit
Sorted (e ∷ es) = All (λ x. e.trigger_at ≤ x.trigger_at) es × Sorted es

All-insert :
    (P : ScheduledEvent → Type 0) (e : ScheduledEvent) (es : List ScheduledEvent)
    → P e
    → All P es
    → All P (insert_by_trigger e es)
All-insert P e [] p h = (p, tt)
All-insert P e (x ∷ xs) p h = elim (Bool-cases (leb e.trigger_at x.trigger_at)) [
  | inl le ↦ rw le (p, h)
  | inr gt ↦ rw gt (h.0, All-insert P e xs p h.1)
]

All-sort :
    (P : ScheduledEvent → Type 0) (es : List ScheduledEvent) → All P es → All P (sort_by_trigger es)
unfolding sort_by_trigger
All-sort P [] h = tt
All-sort P (e ∷ es) h = All-insert P e (sort_by_trigger es) h.0 (All-sort P es h.1)

insert-Sorted :
    (e : ScheduledEvent) (es : List ScheduledEvent) → Sorted es → Sorted (insert_by_trigger e es)
insert-Sorted e [] h = (tt, tt)
insert-Sorted e (x ∷ xs) h = elim (Bool-cases (leb e.trigger_at x.trigger_at)) [
  | inl le ↦ rw le ((ground arith, All-map _ _ (λ y later. ground arith) xs h.0), h)
  | inr gt ↦ rw gt (All-insert _ e xs (ground arith) h.0, insert-Sorted e xs h.1)
]

sort-Sorted : (es : List ScheduledEvent) → Sorted (sort_by_trigger es)
unfolding sort_by_trigger
sort-Sorted [] = tt
sort-Sorted (e ∷ es) = insert-Sorted e (sort_by_trigger es) (sort-Sorted es)

take-Sorted : (n : ℕ) (es : List ScheduledEvent) → Sorted es → Sorted (take n es)
take-Sorted zero es h = tt
take-Sorted (suc n) [] h = tt
take-Sorted (suc n) (e ∷ es) h = (All-take _ n es h.0, take-Sorted n es h.1)

-- A row that is pending and whose time has come.
abbrev pub Due : ℕ → ScheduledEvent → Type 0
Due now e = (e.status ≡ "pending") × (e.trigger_at ≤ now)

-- A batch has `batch_size` rows at most, each of them pending and due, and the earliest come first.
pub due_events-Sorted :
    (batch_size now : ℕ) (db : Db)
    → (length (due_events batch_size now db) ≤ batch_size)
      × All (Due now) (due_events batch_size now db)
      × Sorted (due_events batch_size now db)
unfolding due_events
due_events-Sorted batch_size now db = (
  length-take-le batch_size _,
  All-take _ batch_size _ (
      All-sort _ _ (
        All-map _ _ (λ e due. (ground (arith, eq_iff e.status "pending"), ground arith)) _
          (All-select _ db.scheduled))),
  take-Sorted batch_size _ (sort-Sorted (select (is_due now) db.scheduled)),
)
