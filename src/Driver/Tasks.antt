-- ===== src/Driver/Tasks.antt =====
-- The class `ToDo` of src/socket_async.cpp and src/todo_impl.cpp: a handle on a task, which holds a weak
-- reference to the driver.
use sockpuppet.Base.{
  ℕ, ◌≡◌, ◌≢◌, refl, ◌∙◌, Bool, true, false, ok, Action, pure, and_then, if◌then◌else◌, arith,
}
use sockpuppet.Base.Int.{ℤ, ◌+ℤ◌}
use sockpuppet.Base.Sequence.{mem, IsNodup}
use sockpuppet.Os.{Sys}
use sockpuppet.Wait.{clock_now, to_ns}
use sockpuppet.Todo.{ToDos, assign, insert}
use sockpuppet.Todo.Sorted.{without_absent, without-insert, insert_at_due-IsNodup}
use sockpuppet.Todo.Order.{insert-queue, insert-when, remove-without, Moved, move-Moved}
use sockpuppet.Driver.{State, lift, to_do_insert, to_do_remove, to_do_move}

module _ {W : Type 0} where
  -- `ToDo(driver, task, when)`; `todo` is the identity of the new object.
  unfoldable pub to_do_at : ℕ → ℤ → Action (State W) (Unit {0})
  unfolding to_do_insert
  to_do_at todo when s =
      to_do_insert todo
        (record s { todos = record s.todos { when = assign s.todos.when todo when } })

  -- `Cancel` and `Shift`: `alive` says whether the driver still exists.
  unfoldable pub cancel : Bool → ℕ → Action (State W) (Unit {0})
  unfolding to_do_remove
  cancel alive todo s = if alive then to_do_remove todo s else pure tt s

  unfoldable pub shift : Bool → ℕ → ℤ → Action (State W) (Unit {0})
  unfolding to_do_move
  shift alive todo when s = if alive then to_do_move todo when s else pure tt s

module _ (sys : Sys) where
  -- `ToDo(driver, task, delay)` and `Shift(delay)`
  unfoldable pub to_do_in : ℕ → ℤ → Action (State sys.World) (Unit {0})
  unfolding clock_now to_do_at
  to_do_in todo delay s =
      and_then (lift (clock_now sys) s) (λ now. to_do_at todo (now +ℤ to_ns delay))

  unfoldable pub shift_by : Bool → ℕ → ℤ → Action (State sys.World) (Unit {0})
  unfolding clock_now shift
  shift_by alive todo delay s =
      and_then (lift (clock_now sys) s) (λ now. shift alive todo (now +ℤ to_ns delay))

  -- A task that was not pending, created with a delay and cancelled again at once, leaves the list of tasks and
  -- the time of every other task as they were.
  pub cancel-to_do_in :
      (todo : ℕ) (delay : ℤ) (s : State sys.World) (other : ℕ)
      → IsNodup s.todos.queue
      → mem todo s.todos.queue ≡ false
      → todo ≢ other
      → let r = and_then (to_do_in todo delay s) (λ _. cancel true todo) in
        (r.0 ≡ ok tt)
        × (r.1.todos.queue ≡ s.todos.queue)
        × (r.1.todos.when other ≡ s.todos.when other)
  unfolding to_do_in to_do_at cancel
  cancel-to_do_in todo delay s other d m ne =
      let made : ToDos = record s.todos {
        when = assign s.todos.when todo ((sys.now s.world).0 +ℤ to_ns delay);
      } in
      let distinct : IsNodup (insert made todo).queue =
        rw (insert-queue made todo) (insert_at_due-IsNodup made.when todo s.todos.queue m d) in
      rw (remove-without (insert made todo) todo distinct, insert-queue made todo)
        (
          refl,
          without-insert made.when todo s.todos.queue ∙ without_absent todo s.todos.queue m,
          rw (insert-when made todo) (ground (arith, ne)),
        )

  -- Shifting a task by a delay while the driver exists puts it, pending or not, at that delay from now, and
  -- leaves the other tasks with their times and their order.
  pub shift_by-Moved :
      (todo : ℕ) (delay : ℤ) (s : State sys.World)
      → IsNodup s.todos.queue
      → Moved s.todos (shift_by true todo delay s).1.todos todo ((sys.now s.world).0 +ℤ to_ns delay)
  unfolding shift_by shift
  shift_by-Moved todo delay s d = move-Moved s.todos todo ((sys.now s.world).0 +ℤ to_ns delay) d
