-- ===== src/Driver/Schedule.antt =====
-- `StepTodos` of src/driver_impl.cpp: it ends, and the timeout that it leaves for polling.
use sockpuppet.Base.{ℕ, ◌<◌, ◌≡◌, false, is_empty}
use sockpuppet.Os.{Sys}
use sockpuppet.Wait.{Deadline}
use sockpuppet.Todo.{ToDos}
use sockpuppet.Driver.{State, Handlers}
use sockpuppet.Driver.Loop.{Round, return, again}
use sockpuppet.Driver.Timeout.{JustTicked, Leaves}

module _ (sys : Sys) (h : Handlers sys.World) (budget : ToDos → ℕ) where
  -- What a round hands on: a timeout, or a later deadline with a pending task and a smaller budget.
  abbrev RoundPost : State sys.World → Deadline → ℕ → Round → State sys.World → Type 0
  RoundPost s0 d b (return t) s = Leaves sys s0 d t s
  RoundPost s0 d b (again d') s =
      JustTicked sys d s d' × (is_empty s.todos.queue ≡ false) × (budget s.todos < b)
