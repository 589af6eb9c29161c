-- ===== src/Tests/Tasks.antt =====
-- Deadlines and schedules.
use sockpuppet.Base.{ℕ, ◌≡◌, ◌≢◌, false, ok, none, refl, List, [], ◌∷◌, arith, if◌then◌else◌, ◌==◌}
use sockpuppet.Base.Int.{ℤ, pos, ◌≤ℤ◌, ◌<ℤ◌, ◌+ℤ◌, ltb_ℤ}
use sockpuppet.Os.{BlockingLaws}
use sockpuppet.Wait.{
  Deadline, remaining, limited_at, tick_at, time_left, to_ns, wait_readable, wait_writable,
}
use sockpuppet.Wait.Time.{remaining_bounds}
use sockpuppet.Socket.{receive, receive_from}
use sockpuppet.Socket.Narrowed.{long_timeout-blocks}
use sockpuppet.Tests.World.{test_sys, start}
use sockpuppet.Todo.{ToDos, insert, remove}
use sockpuppet.Todo.Agenda.{
  Call, add, shift, take_next, cancel, agenda, run_calls, Runs, run_calls-Runs,
}
use sockpuppet.Todo.Sorted.{IsOrdered}
use sockpuppet.Todo.Order.{Split, insert-Split, remove-IsOrdered}

abbrev at_half : Deadline
at_half = tick_at (pos 2500000) (limited_at (pos 1000000) (pos 4))

remaining_bounds_example :
    (pos 0 ≤ℤ remaining at_half)
    × (remaining at_half ≤ℤ pos 4)
    × (pos 2500000 ≤ℤ pos 1000000 +ℤ to_ns (pos 4)
        → (pos 2500000 +ℤ to_ns (remaining at_half) ≤ℤ pos 1000000 +ℤ to_ns (pos 4))
          × (pos 1000000 +ℤ to_ns (pos 4)
              <ℤ pos 2500000 +ℤ to_ns (remaining at_half) +ℤ to_ns (pos 1)))
    × (pos 1000000 +ℤ to_ns (pos 4) <ℤ pos 2500000 → remaining at_half ≡ pos 0)
    × (time_left at_half ≡ ltb_ℤ (pos 2500000) (pos 1000000 +ℤ to_ns (pos 4)))
remaining_bounds_example = remaining_bounds (pos 1000000) (pos 2500000) 4 (omega arith)

-- A timeout of about 35 days.
test_blocking : BlockingLaws test_sys
test_blocking = record { poll_blocks = λ q p k w e. ground arith }

long_timeout-blocks_example :
    ((wait_readable test_sys 7 (pos 3000000000) start).0 ≢ ok false)
    × ((wait_writable test_sys 7 (pos 3000000000) start).0 ≢ ok false)
    × ((receive test_sys 7 9 (pos 3000000000) start).0 ≢ ok none)
    × ((receive_from test_sys 7 9 (pos 3000000000) start).0 ≢ ok none)
long_timeout-blocks_example =
    long_timeout-blocks test_sys test_blocking 3000000000 7 9 start (omega arith) (omega arith)

-- Three tasks, due at 10, 20 and 20.
abbrev due : ℕ → ℤ
due i = if i == 0 then pos 10 else (if i == 3 then pos 15 else pos 20)

abbrev schedule : ToDos
schedule = record { when = due; queue = 0 ∷ 1 ∷ 2 ∷ [] }

schedule-IsOrdered : IsOrdered schedule
schedule-IsOrdered = record {
  sorted = ((omega arith, (omega arith, tt)), ((omega arith, tt), (tt, tt)));
  distinct = (refl, (refl, (refl, tt)));
}

insert-Split_example : Split due 3 (0 ∷ 1 ∷ 2 ∷ []) (insert schedule 3).queue
insert-Split_example = insert-Split schedule 3 schedule-IsOrdered.sorted

remove-IsOrdered_example : IsOrdered (remove schedule 1)
remove-IsOrdered_example = remove-IsOrdered schedule 1 schedule-IsOrdered

abbrev calls : List Call
calls = add 3 (pos 15) ∷ shift 0 (pos 30) ∷ take_next ∷ cancel 2 ∷ []

run_calls-Runs_example : Runs (agenda (run_calls calls schedule)) (agenda schedule) calls
run_calls-Runs_example =
    run_calls-Runs calls schedule schedule-IsOrdered (refl, (tt, (tt, (tt, tt))))
