-- ===== src/Scheduler/Order.antt =====
-- internal/scheduler/types.go: the order of the queue. sort.SliceStable is the insertion sort that
-- it runs on a block of 20 elements; a stable sort by a strict weak order has one result, so for
-- `quality_latency`, whose comparison is one, the sort of a longer queue is the same.
pub mod Laws
pub mod Unique
use code_maintainer.Base.{
  ℕ, ◌*◌, String, Bool, true, false, not, ◌&&◌, List, [], ◌∷◌, ◌is◌, if◌then◌else◌, ltb, ◌==◌,
}
use code_maintainer.Base.Int.{ℤ, pos, ltb_ℤ, leb_ℤ, eqb_ℤ}
use code_maintainer.Base.Text.{is_empty}
use code_maintainer.Base.Clock.{Time, is_zero, before, second, sub_time}
use code_maintainer.Scheduler.Types.{QueueItem, mode_throughput_batching}

abbrev pub minute : ℕ
minute = 60 * second

unfoldable pub deadline_score : QueueItem → Time → ℕ
deadline_score item now =
    if is_zero item.deadline_at
    then 0
    else if leb_ℤ (sub_time item.deadline_at now) (pos 0)
    then 4
    else if leb_ℤ (sub_time item.deadline_at now) (pos (15 * minute))
    then 3
    else if leb_ℤ (sub_time item.deadline_at now) (pos (60 * minute))
    then 2
    else 1

-- The comparison by urgency, priority and age.
unfoldable pub urgent_first : Time → QueueItem → QueueItem → Bool
urgent_first now a b =
    if not (deadline_score a now == deadline_score b now)
    then ltb (deadline_score b now) (deadline_score a now)
    else if not (eqb_ℤ a.priority b.priority)
    then ltb_ℤ b.priority a.priority
    else before a.created_at b.created_at

-- The comparison that sortQueue gives to sort.SliceStable.
unfoldable pub queue_less : String → Time → QueueItem → QueueItem → Bool
queue_less mode now a b =
    if mode is mode_throughput_batching && not (is_empty a.model_id) && a.model_id is b.model_id
    then ltb_ℤ b.priority a.priority
    else urgent_first now a b

module _ {A : Type 0} (less : A → A → Bool) where
  -- Puts an element behind the last one that it is not less than; the list is in reverse order.
  unfoldable pub insert_back : A → List A → List A
  insert_back x [] = x ∷ []
  insert_back x (y ∷ ys) = let rest = insert_back x ys in if less x y then y ∷ rest else x ∷ y ∷ ys

  unfoldable pub insert_all : List A → List A → List A
  insert_all [] sorted = sorted
  insert_all (x ∷ xs) sorted = insert_all xs (insert_back x sorted)

  abbrev pub reverse_onto : List A → List A → List A
  reverse_onto [] acc = acc
  reverse_onto (x ∷ xs) acc = reverse_onto xs (x ∷ acc)

  unfoldable pub stable_sort : List A → List A
  stable_sort xs = reverse_onto (insert_all xs []) []

unfoldable pub sort_queue : List QueueItem → String → Time → List QueueItem
sort_queue items mode now = stable_sort (queue_less mode now) items
