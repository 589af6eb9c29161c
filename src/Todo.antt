-- ===== src/Todo.antt =====
-- src/todo_impl.{h,cpp}
pub mod Sorted
pub mod Order
pub mod Agenda
use sockpuppet.Base.{ℕ, Bool, List, [], ◌∷◌, ◌==◌, if◌then◌else◌, length}
use sockpuppet.Base.Int.{ℤ, ltb_ℤ}
use sockpuppet.Base.Sequence.{find_if, emplace, erase}

-- The objects `ToDoImpl` are shared between the user and the list: they live in a store by their
-- identity, of which `when` is kept here, and the list holds identities.
pub record ToDos : Type 0 where
  pub when : ℕ → ℤ
  pub queue : List ℕ

abbrev pub assign : (ℕ → ℤ) → ℕ → ℤ → ℕ → ℤ
assign w i t j = if i == j then t else w j

abbrev pub when_before : (ℕ → ℤ) → ℤ → ℕ → Bool
when_before w t todo = ltb_ℤ t (w todo)

abbrev pub is_same : ℕ → ℕ → Bool
is_same ptr todo = todo == ptr

unfoldable pub insert : ToDos → ℕ → ToDos
unfolding find_if
insert s todo =
    let where_it = find_if (when_before s.when (s.when todo)) s.queue in
    record s { queue = emplace s.queue where_it todo }

unfoldable pub remove : ToDos → ℕ → ToDos
unfolding find_if
remove s todo =
    let it = find_if (is_same todo) s.queue in
    if it == length s.queue then s else record s { queue = erase s.queue it }

unfoldable pub move : ToDos → ℕ → ℤ → ToDos
unfolding insert remove
move s todo t =
    let removed = remove s todo in
    insert (record removed { when = assign removed.when todo t }) todo
