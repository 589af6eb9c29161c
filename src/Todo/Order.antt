-- ===== src/Todo/Order.antt =====
-- The list of src/todo_impl.cpp stays sorted by due time and holds each task once.
use sockpuppet.Base.{
  ℕ, ◌≡◌, refl, inl, inr, ap, true, false, List, [], ◌∷◌, ◌++◌, ◌==◌, ◌≢◌, if◌then◌else◌, length,
  arith, Bool-cases,
}
use sockpuppet.Base.Int.{ℤ, ltb_ℤ, ◌<ℤ◌}
use sockpuppet.Base.Sequence.{find_if, emplace, erase, mem, IsNodup}
use sockpuppet.Todo.{ToDos, assign, when_before, is_same, insert, remove, move}
use sockpuppet.Todo.Sorted.{
  AtLeast, After, AtMost, IsSorted, IsOrdered, without, insert_at_due, insert_at_due-IsSorted,
  mem-insert_at_due, insert_at_due-IsNodup, without_absent, without-IsSorted, mem-without,
  without-IsNodup, IsSorted-assign, without-insert, without-without,
}

emplace-find_if :
    (w : ℕ → ℤ) (x : ℕ) (q : List ℕ)
    → emplace q (find_if (when_before w (w x)) q) x ≡ insert_at_due w x q
unfolding find_if
emplace-find_if w x [] = refl
emplace-find_if w x (y ∷ ys) = elim (Bool-cases (ltb_ℤ (w x) (w y))) [
  | inl e ↦ rw e
  | inr e ↦ rw e (ap (◌∷◌ y) (emplace-find_if w x ys))
]

pub insert-queue : (s : ToDos) (x : ℕ) → (insert s x).queue ≡ insert_at_due s.when x s.queue
unfolding insert
insert-queue s x = emplace-find_if s.when x s.queue

pub insert-when : (s : ToDos) (x : ℕ) → (insert s x).when ≡ s.when
unfolding insert
insert-when s x = refl

-- Inserting a task that is not in the list keeps the list sorted by due time and free of duplicates.
pub insert-IsOrdered :
    (s : ToDos) (x : ℕ) → mem x s.queue ≡ false → IsOrdered s → IsOrdered (insert s x)
insert-IsOrdered s x m o = record {
  sorted =
      rw (insert-when s x, insert-queue s x) (insert_at_due-IsSorted s.when x s.queue o.sorted);
  distinct = rw (insert-queue s x) (insert_at_due-IsNodup s.when x s.queue m o.distinct);
}

After-of_head :
    (w : ℕ → ℤ) (t : ℤ) (y : ℕ) (ys : List ℕ) → t <ℤ w y → AtLeast w (w y) ys → After w t ys
After-of_head w t y [] h l = tt
After-of_head w t y (z ∷ zs) h l = (omega arith, After-of_head w t y zs h l.1)

pub record Split (w : ℕ → ℤ) (x : ℕ) (q r : List ℕ) : Type 0 where
  pub before : List ℕ
  pub after : List ℕ
  pub old : q ≡ before ++ after
  pub new : r ≡ before ++ x ∷ after
  pub earlier : AtMost w (w x) before
  pub later : After w (w x) after

insert_at_due-Split :
    (w : ℕ → ℤ) (x : ℕ) (q : List ℕ) → IsSorted w q → Split w x q (insert_at_due w x q)
insert_at_due-Split w x [] s = record {
  before = [];
  after = [];
  old = refl;
  new = refl;
  earlier = tt;
  later = tt;
}
insert_at_due-Split w x (y ∷ ys) s = elim (Bool-cases (ltb_ℤ (w x) (w y))) [
  | inl e ↦ rw e (record {
    before = [];
    after = y ∷ ys;
    old = refl;
    new = refl;
    earlier = tt;
    later = (ground arith, After-of_head w (w x) y ys (ground arith) s.0);
  })
  | inr e ↦
      let r = insert_at_due-Split w x ys s.1 in
      rw e (record {
        before = y ∷ r.before;
        after = r.after;
        old = ap (◌∷◌ y) r.old;
        new = ap (◌∷◌ y) r.new;
        earlier = (ground arith, r.earlier);
        later = r.later;
      })
]

-- In a sorted list a task is inserted behind all tasks due at its time or before and in front of all
-- that are due strictly later, and the others keep their places: tasks due together stay first in,
-- first out.
pub insert-Split :
    (s : ToDos) (x : ℕ) → IsSorted s.when s.queue → Split s.when x s.queue (insert s x).queue
insert-Split s x o = rw (insert-queue s x) (insert_at_due-Split s.when x s.queue o)

abbrev remove_first : ℕ → List ℕ → List ℕ
remove_first a [] = []
remove_first a (x ∷ xs) = if x == a then xs else x ∷ remove_first a xs

remove_at :
    (a : ℕ) (q : List ℕ)
    → (let it = find_if (is_same a) q in if it == length q then q else erase q it)
      ≡ remove_first a q
unfolding find_if
remove_at a [] = refl
remove_at a (x ∷ xs) = ground (arith, remove_at a xs)

remove_first-without : (a : ℕ) (q : List ℕ) → IsNodup q → remove_first a q ≡ without a q
remove_first-without a [] d = refl
remove_first-without a (x ∷ xs) d =
    ground (arith, remove_first-without a xs d.1, without_absent a xs)

remove_lem : (s : ToDos) (x : ℕ) → remove s x ≡ record s { queue = remove_first x s.queue }
unfolding remove
remove_lem s x = elim (Bool-cases (find_if (is_same x) s.queue == length s.queue)) [
  | inl e ↦ ground (arith, remove_at x s.queue)
  | inr e ↦ ground (arith, remove_at x s.queue)
]

-- From a list free of duplicates `remove` takes exactly the given task, whether it is there or not.
pub remove-without :
    (s : ToDos) (x : ℕ) → IsNodup s.queue → remove s x ≡ record s { queue = without x s.queue }
remove-without s x d = rw (remove_lem s x, remove_first-without x s.queue d)

-- Removing a task, whether or not it is in the list, keeps the list in order.
pub remove-IsOrdered : (s : ToDos) (x : ℕ) → IsOrdered s → IsOrdered (remove s x)
remove-IsOrdered s x o = rw (remove-without s x o.distinct) (record {
  sorted = without-IsSorted s.when x s.queue o.sorted;
  distinct = without-IsNodup x s.queue o.distinct;
})

-- Rescheduling keeps the list in order whether or not the task was in it.
pub move-IsOrdered : (s : ToDos) (x : ℕ) (t : ℤ) → IsOrdered s → IsOrdered (move s x t)
unfolding move
move-IsOrdered s x t o = rw (remove-without s x o.distinct) (
    insert-IsOrdered _ x (mem-without x s.queue) (record {
      sorted =
          IsSorted-assign s.when x t (without x s.queue) (mem-without x s.queue)
            (without-IsSorted s.when x s.queue o.sorted);
      distinct = without-IsNodup x s.queue o.distinct;
    }))

pub record Moved (s r : ToDos) (x : ℕ) (t : ℤ) : Type 0 where
  pub present : mem x r.queue ≡ true
  pub due : r.when x ≡ t
  pub others_due : (y : ℕ) → x ≢ y → r.when y ≡ s.when y
  pub others : without x r.queue ≡ without x s.queue

-- After `move` the task is in the list, due at the new time; every other task keeps its due time and
-- its place among the others.
pub move-Moved : (s : ToDos) (x : ℕ) (t : ℤ) → IsNodup s.queue → Moved s (move s x t) x t
unfolding move
move-Moved s x t d = rw (remove-without s x d) (record {
  present = ground (
    arith,
    insert-queue (record s { when = assign s.when x t; queue = without x s.queue }) x,
    mem-insert_at_due (assign s.when x t) x x (without x s.queue),
  );
  due = ground arith;
  others_due = λ y ne. ground arith;
  others = rw (
    insert-queue (record s { when = assign s.when x t; queue = without x s.queue }) x,
    without-insert (assign s.when x t) x (without x s.queue),
    without-without x s.queue,
  );
})
