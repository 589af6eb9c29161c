-- ===== src/Driver/Rounds.antt =====
-- The rounds of tasks and of sockets in a step of src/driver_impl.cpp keep the driver well formed, if
-- what they call does.
use sockpuppet.Base.{
  ℕ, zero, suc, ◌+◌, ◌≡◌, ◌≢◌, refl, subst, ◌∙◌, true, false, List, [], ◌∷◌, length, drop, is_empty,
  ◌==◌, Result, ok, err, Action, and_then, Bool-cases, inl, inr, String,
}
use sockpuppet.Base.Int.{pos, ltb_ℤ, ◌-ℤ◌}
use sockpuppet.Base.Sequence.{modify, IsNodup}
use sockpuppet.Os.{Sys, PollLaws, Events, Revents, Pollfd}
use sockpuppet.Wait.{Deadline, tick, time_left}
use sockpuppet.Todo.Sorted.{IsOrdered, IsSorted}
use sockpuppet.Driver.{State, Handlers, lift, set_pollout}
use sockpuppet.Driver.Registry.{IsAligned, fds-modify}
use sockpuppet.Driver.Loop.{
  return, again, run_front, after_task, todo_round, step_todos, query_from, query_sockets, serve,
  is_ready, do_one_from, do_one_socket_task, now_of,
}

pub record IsSound {W : Type 0} (get_fd : ℕ → ℕ) (s : State W) : Type 0 where
  pub ordered : IsOrdered s.todos
  pub aligned : IsAligned get_fd s
  -- No socket has the descriptor of the driver's own pipe.
  pub apart : (k : ℕ) → s.pipe_to ≢ get_fd k

abbrev pub Keeps : {S A : Type 0} → (S → Type 0) → Action S A → Type 0
Keeps {S} P m = (s : S) → P s → P (m s).1

-- The callbacks keep `P`.
pub record KeepAll {W : Type 0} (P : State W → Type 0) (h : Handlers W) : Type 0 where
  pub what : (task : ℕ) → Keeps P (h.what task)
  pub query : (k : ℕ) (e : Events) → Keeps P (h.query k e)
  pub on_readable : (k : ℕ) → Keeps P (h.on_readable k)
  pub on_writable : (k : ℕ) → Keeps P (h.on_writable k)
  pub on_error : (k : ℕ) (m : String) → Keeps P (h.on_error k m)

-- What the callbacks must not break: the methods of the driver that they may call do not break it.
abbrev pub KeepSound : {W : Type 0} → Handlers W → Type 0
KeepSound h = KeepAll (IsSound h.get_fd) h

pub and_then-Keeps :
    {S A B : Type 0} (P : S → Type 0) (m : Result A × S) (f : A → Action S B)
    → P m.1
    → ((a : A) → Keeps P (f a))
    → P (and_then m f).1
and_then-Keeps P (ok a, s) f p k = k a s p
and_then-Keeps P (err e, s) f p k = p

module _ (sys : Sys) (laws : PollLaws sys) (h : Handlers sys.World) (keep : KeepSound h) where
  abbrev pub Ok : State sys.World → Type 0
  Ok = IsSound h.get_fd

  modify-Keeps :
      (i : ℕ) (f : Pollfd → Pollfd) (s : State sys.World)
      → ((p : Pollfd) → (f p).fd ≡ p.fd)
      → Ok s
      → Ok (record s { pfds = modify s.pfds i f })
  modify-Keeps i f s e k = record {
    ordered = k.ordered;
    aligned = fds-modify s.pfds i f e ∙ k.aligned;
    apart = k.apart;
  }

  after_task-Keeps : (d : Deadline) → Keeps Ok (after_task sys h d)
  unfolding after_task
  after_task-Keeps d s k =
      and_then-Keeps Ok (lift (tick sys d) s) _
        (record { ordered = k.ordered; aligned = k.aligned; apart = k.apart })
        λ t s' k'. elim (Bool-cases (is_empty s'.todos.queue)) [
          | inl e ↦ rw e k'
          | inr e ↦ rw e (elim (Bool-cases (time_left t)) [ inl l ↦ rw l k' | inr l ↦ rw l k' ])
        ]

  todo_round-Keeps :
      (q : List ℕ) (d : Deadline) (s : State sys.World)
      → s.todos.queue ≡ q
      → Ok s
      → Ok (todo_round sys h q d s).1
  unfolding todo_round
  todo_round-Keeps [] d s e k = k
  todo_round-Keeps (front ∷ rest) d s e k =
      elim (Bool-cases (ltb_ℤ (pos 0) (s.todos.when front -ℤ now_of d))) [
        | inl l ↦ rw l k
        | inr l ↦ rw l (
            and_then-Keeps Ok (run_front sys h front rest s) (λ _. after_task sys h d)
              (keep.what front (record s { todos = record s.todos { queue = rest } }) (popped k))
              (λ _. after_task-Keeps d))
      ]
    where
      popped : Ok s → Ok (record s { todos = record s.todos { queue = rest } })
      popped k' = record {
        ordered = record {
          sorted = (subst (IsSorted s.todos.when) e k'.ordered.sorted).1;
          distinct = (subst IsNodup e k'.ordered.distinct).1;
        };
        aligned = k'.aligned;
        apart = k'.apart;
      }

  pub step_todos-Keeps : (fuel : ℕ) (d : Deadline) → Keeps Ok (step_todos sys h fuel d)
  unfolding step_todos
  step_todos-Keeps zero d s k = k
  step_todos-Keeps (suc fuel) d s k =
      and_then-Keeps Ok (todo_round sys h s.todos.queue d s) _
        (todo_round-Keeps s.todos.queue d s refl k)
        (elim [ return t ↦ λ s' k'. k' | again d' ↦ λ s' k'. step_todos-Keeps fuel d' s' k' ])

  query_from-Keeps :
      (i : ℕ) (socks : List ℕ) (ps : List Pollfd) → Keeps Ok (query_from sys h i socks ps)
  unfolding query_from
  query_from-Keeps i [] ps s k = k
  query_from-Keeps i (x ∷ socks) [] s k = k
  query_from-Keeps i (x ∷ socks) (p ∷ ps) s k = elim (Bool-cases (p.fd == h.get_fd x)) [
    | inl e ↦ rw e (
        and_then-Keeps Ok (h.query x p.events s) _ (keep.query x p.events s k) λ ev s' k'.
          query_from-Keeps (suc i) socks ps _
            (modify-Keeps (suc i) (λ q. record q { events = ev }) s' (λ q. refl) k'))
    | inr e ↦ rw e k
  ]

  pub query_sockets-Keeps : Keeps Ok (query_sockets sys h)
  unfolding query_sockets
  query_sockets-Keeps s k = elim (Bool-cases (length s.sockets + 1 == length s.pfds)) [
    | inl e ↦ rw e (query_from-Keeps 0 s.sockets (drop 1 s.pfds) s k)
    | inr e ↦ rw e k
  ]

  serve-Keeps : (i x : ℕ) (r : Revents) → Keeps Ok (serve sys h i x r)
  unfolding serve
  serve-Keeps i x r s k = elim (Bool-cases r.pollin) [
    | inl e ↦ rw e (keep.on_readable x s k)
    | inr e ↦ rw e (elim (Bool-cases r.pollout) [
      | inl o ↦ rw o (
          and_then-Keeps Ok (h.on_writable x s) _ (keep.on_writable x s k) (elim [
            | true ↦ λ s' k'. modify-Keeps (suc i) (set_pollout false) s' (λ q. refl) k'
            | false ↦ λ s' k'. k'
          ]))
      | inr o ↦ rw o (keep.on_error x _ s k)
    ])
  ]

  do_one_from-Keeps :
      (i : ℕ) (socks : List ℕ) (ps : List Pollfd) → Keeps Ok (do_one_from sys h i socks ps)
  unfolding do_one_from
  do_one_from-Keeps i [] ps s k = k
  do_one_from-Keeps i (x ∷ socks) [] s k = k
  do_one_from-Keeps i (x ∷ socks) (p ∷ ps) s k = elim (Bool-cases (p.fd == h.get_fd x)) [
    | inr e ↦ rw e k
    | inl e ↦ rw e (elim (Bool-cases (is_ready p.revents)) [
      | inl r ↦ rw r (serve-Keeps i x p.revents s k)
      | inr r ↦ rw r (do_one_from-Keeps (suc i) socks ps s k)
    ])
  ]

  pub do_one_socket_task-Keeps : Keeps Ok (do_one_socket_task sys h)
  unfolding do_one_socket_task
  do_one_socket_task-Keeps s k = elim (Bool-cases (length s.sockets + 1 == length s.pfds)) [
    | inl e ↦ rw e (do_one_from-Keeps 0 s.sockets (drop 1 s.pfds) s k)
    | inr e ↦ rw e k
  ]
