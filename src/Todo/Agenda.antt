-- ===== src/Todo/Agenda.antt =====
-- What the list of src/todo_impl.cpp promises, whatever its order in memory: an agenda of pending tasks
-- and their times, of which the earliest is run next.
use sockpuppet.Base.{
  ℕ, ◌≡◌, refl, subst, ==_refl, inl, inr, true, false, Option, none, some, List, [], ◌∷◌, ◌==◌,
  if◌then◌else◌, drop, arith, Bool-cases,
}
use sockpuppet.Base.Int.{ℤ, ◌≤ℤ◌}
use sockpuppet.Base.Sequence.{mem, IsNodup}
use sockpuppet.Todo.{ToDos, assign, insert, remove, move}
use sockpuppet.Todo.Sorted.{
  AtLeast, IsOrdered, without, mem-insert_at_due, insert_at_due, IsSorted-assign,
}
use sockpuppet.Todo.Order.{
  insert-queue, insert-when, insert-IsOrdered, remove-without, remove-IsOrdered, move-IsOrdered,
}

-- The time of each pending task.
abbrev pub Agenda : Type 0
Agenda = ℕ → Option ℤ

abbrev pub agenda : ToDos → Agenda
agenda s x = if mem x s.queue then some (s.when x) else none

-- The calls on the list: of the constructor of a task, of `Cancel`, of `Shift`, and of `StepTodos`, which
-- takes the first task.
pub data Call : Type 0 where
  add : (x : ℕ) → (t : ℤ) → Call
  cancel : (x : ℕ) → Call
  shift : (x : ℕ) → (t : ℤ) → Call
  take_next : Call

abbrev pub perform : Call → ToDos → ToDos
perform (add x t) s = insert (record s { when = assign s.when x t }) x
perform (cancel x) s = remove s x
perform (shift x t) s = move s x t
perform take_next s = record s { queue = drop 1 s.queue }

abbrev pub run_calls : List Call → ToDos → ToDos
run_calls [] s = s
run_calls (c ∷ cs) s = run_calls cs (perform c s)

-- A new task is not pending yet.
abbrev pub IsFresh : Call → ToDos → Type 0
IsFresh (add x t) s = mem x s.queue ≡ false
IsFresh (cancel x) s = Unit {0}
IsFresh (shift x t) s = Unit {0}
IsFresh take_next s = Unit {0}

abbrev pub AllFresh : List Call → ToDos → Type 0
AllFresh [] s = Unit {0}
AllFresh (c ∷ cs) s = IsFresh c s × AllFresh cs (perform c s)

abbrev pub NotBefore : ℤ → Option ℤ → Type 0
NotBefore t none = Unit {0}
NotBefore t (some u) = t ≤ℤ u

-- The agenda with the entry of one task replaced.
abbrev pub put : ℕ → Option ℤ → Agenda → Agenda
put x o a y = if x == y then o else a y

abbrev pub Same : Agenda → Agenda → Type 0
Same a b = (y : ℕ) → a y ≡ b y

-- What a call does to the agenda. The next task is any that no pending one is due before.
pub data Expected (a b : Agenda) : Call → Type 0 where
  added : (x : ℕ) (t : ℤ) → Same b (put x (some t) a) → Expected a b (add x t)
  cancelled : (x : ℕ) → Same b (put x none a) → Expected a b (cancel x)
  shifted : (x : ℕ) (t : ℤ) → Same b (put x (some t) a) → Expected a b (shift x t)
  idle : Same a (λ y. none) → Same b a → Expected a b take_next
  taken :
      (x : ℕ) (t : ℤ)
      → a x ≡ some t
      → ((y : ℕ) → NotBefore t (a y))
      → Same b (put x none a)
      → Expected a b take_next

pub data Runs (d : Agenda) : Agenda → List Call → Type 0 where
  done : {a : Agenda} → Same a d → Runs d a []
  call :
      {a : Agenda} {c : Call} {cs : List Call} (b : Agenda)
      → Expected a b c
      → Runs d b cs
      → Runs d a (c ∷ cs)

mem-without : (x y : ℕ) (q : List ℕ) → mem y (without x q) ≡ (if x == y then false else mem y q)
mem-without x y [] = ground arith
mem-without x y (z ∷ q) = ground (arith, mem-without x y q)

AtLeast-mem : (w : ℕ → ℤ) (t : ℤ) (y : ℕ) (q : List ℕ) → AtLeast w t q → mem y q ≡ true → t ≤ℤ w y
AtLeast-mem w t y [] l m = cc
AtLeast-mem w t y (x ∷ q) l m = elim (Bool-cases (x == y)) [
  | inl e ↦ let same : x ≡ y = ground (arith, e) in subst (λ z. t ≤ℤ w z) same l.0
  | inr e ↦ AtLeast-mem w t y q l.1 (ground (arith, e, m))
]

inserted-Same :
    (x : ℕ) (w : ℕ → ℤ) (t : ℤ) (q : List ℕ) (s : ToDos)
    → ((y : ℕ) → mem y q ≡ (if x == y then false else mem y s.queue))
    → Same
        (agenda (record { when = assign s.when x t; queue = insert_at_due w x q }))
        (put x (some t) (agenda s))
inserted-Same x w t q s m y = elim (Bool-cases (x == y)) [
  | inl e ↦ rw (mem-insert_at_due w y x q, e) refl
  | inr e ↦ rw (mem-insert_at_due w y x q, m y, e) refl
]

tail-IsOrdered :
    (w : ℕ → ℤ) (q : List ℕ)
    → IsOrdered (record { when = w; queue = q })
    → IsOrdered (record { when = w; queue = drop 1 q })
tail-IsOrdered w [] o = o
tail-IsOrdered w (x ∷ q) o = record { sorted = o.sorted.1; distinct = o.distinct.1 }

head-Expected :
    (w : ℕ → ℤ) (q : List ℕ)
    → IsOrdered (record { when = w; queue = q })
    → Expected
        (agenda (record { when = w; queue = q }))
        (agenda (record { when = w; queue = drop 1 q }))
        take_next
head-Expected w [] o = idle (λ y. refl) (λ y. refl)
head-Expected w (x ∷ q) o = taken x (w x) (rw (==_refl x) refl) earliest rest
  where
    earliest : (y : ℕ) → NotBefore (w x) (agenda (record { when = w; queue = x ∷ q }) y)
    earliest y = elim (Bool-cases (mem y (x ∷ q))) [
      | inl m ↦ rw m (AtLeast-mem w (w x) y (x ∷ q) (omega arith, o.sorted.0) m)
      | inr m ↦ rw m tt
    ]

    rest :
        (y : ℕ)
        → agenda (record { when = w; queue = q }) y
          ≡ put x none (agenda (record { when = w; queue = x ∷ q })) y
    rest y = elim (Bool-cases (x == y)) [
      | inl e ↦
          (let same : x ≡ y = ground (arith, e) in
            let gone : mem y q ≡ false = subst (λ z. mem z q ≡ false) same o.distinct.0 in
            rw (gone, e) refl)
      | inr e ↦ rw e refl
    ]

perform-IsOrdered : (c : Call) (s : ToDos) → IsFresh c s → IsOrdered s → IsOrdered (perform c s)
perform-IsOrdered (add x t) s f o =
    insert-IsOrdered (record s { when = assign s.when x t }) x f
      (record { sorted = IsSorted-assign s.when x t s.queue f o.sorted; distinct = o.distinct })
perform-IsOrdered (cancel x) s f o = remove-IsOrdered s x o
perform-IsOrdered (shift x t) s f o = move-IsOrdered s x t o
perform-IsOrdered take_next s f o = tail-IsOrdered s.when s.queue o

move-Same :
    (x : ℕ) (t : ℤ) (s : ToDos)
    → IsNodup s.queue
    → Same (agenda (move s x t)) (put x (some t) (agenda s))
unfolding move
move-Same x t s d =
    let removed : ToDos = record { when = assign s.when x t; queue = without x s.queue } in
    rw (remove-without s x d, insert-queue removed x, insert-when removed x)
      (inserted-Same x (assign s.when x t) t (without x s.queue) s (λ y. mem-without x y s.queue))

perform-Expected :
    (c : Call) (s : ToDos)
    → IsFresh c s
    → IsOrdered s
    → Expected (agenda s) (agenda (perform c s)) c
perform-Expected (add x t) s f o = added x t (
    rw
      (
        insert-queue (record s { when = assign s.when x t }) x,
        insert-when (record s { when = assign s.when x t }) x,
      )
      (inserted-Same x (assign s.when x t) t s.queue s (λ y. absent y)))
  where
    absent : (y : ℕ) → mem y s.queue ≡ (if x == y then false else mem y s.queue)
    absent y = ground (arith, f)
perform-Expected (cancel x) s f o =
    cancelled x (λ y. rw (remove-without s x o.distinct, mem-without x y s.queue) (ground arith))
perform-Expected (shift x t) s f o = shifted x t (move-Same x t s o.distinct)
perform-Expected take_next s f o = head-Expected s.when s.queue o

-- From a list in order, any sequence of calls that add only tasks that are not pending does to the
-- agenda what the calls stand for, one after the other: the list may be any one with that agenda, and each task
-- taken is one that no other is due before.
pub run_calls-Runs :
    (cs : List Call) (s : ToDos)
    → IsOrdered s
    → AllFresh cs s
    → Runs (agenda (run_calls cs s)) (agenda s) cs
run_calls-Runs [] s o f = done (λ y. refl)
run_calls-Runs (c ∷ cs) s o f =
    call (agenda (perform c s)) (perform-Expected c s f.0 o)
      (run_calls-Runs cs (perform c s) (perform-IsOrdered c s f.0 o) f.1)
