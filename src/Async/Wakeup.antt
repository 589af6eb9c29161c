-- ===== src/Async/Wakeup.antt =====
-- How sending threads and the driver's thread share one TCP socket of src/socket_async_impl.cpp. A
-- thread enqueues under `sendQMtx` and then, if the queue was empty, asks the driver to poll for
-- writing under `stepMtx`. The driver's step holds `stepMtx`; within it the call `DriverOnWritable`
-- holds `sendQMtx`, and the write poll is stopped only after that mutex is free again, so a thread may
-- enqueue between the two.
use sockpuppet.Base.{
  ℕ, ◌+◌, ◌-◌, ◌<◌, ◌≡◌, ◌⊎◌, inl, inr, Bool, true, false, List, [], ◌∷◌, is_empty, if◌then◌else◌,
  ok, arith, sym, ap, subst, refl, ◌∙◌,
}
use sockpuppet.Async.{Async, Sock, SendQElement, send, driver_send}
use sockpuppet.Async.Stream.{SockLaws, partial, complete, failed, thrown, driver_send-Sending}

-- Where the driver's thread is: outside of serving this socket, or between the return of
-- `DriverOnWritable` and what `DoOneSocketTask` does with the result.
pub data Phase : Type 0 where
  resting : Phase
  served : (emptied : Bool) → Phase

pub record Shared (W : Type 0) : Type 0 where
  pub async : Async SendQElement W
  -- POLLOUT in the poll entry of the socket.
  pub polls_out : Bool
  -- Threads that have found the queue empty and are still to call `AsyncWantSend`.
  pub asking : ℕ
  pub phase : Phase

abbrev pub asks : Bool → ℕ
asks true = 1
asks false = 0

module _ {W : Type 0} (sock : Sock W) where
  pub data Step (s t : Shared W) : Type 0 where
    enqueue :
        (b : List ℕ)
        → t ≡ record s { async = (send b s.async).1; asking = s.asking + asks (send b s.async).0.1 }
        → Step s t
    want_send :
        s.phase ≡ resting
        → 0 < s.asking
        → t ≡ record s { polls_out = true; asking = s.asking - 1 }
        → Step s t
    serve :
        (front : SendQElement) (rest : List SendQElement) (emptied : Bool)
        → s.phase ≡ resting
        → s.polls_out ≡ true
        → s.async.send_q ≡ front ∷ rest
        → (driver_send sock s.async).0 ≡ ok emptied
        → t ≡ record s { async = (driver_send sock s.async).1; phase = served emptied }
        → Step s t
    finish :
        (emptied : Bool)
        → s.phase ≡ served emptied
        → t ≡ record s { polls_out = if emptied then false else s.polls_out; phase = resting }
        → Step s t

  pub data Reach (s : Shared W) : Shared W → Type 0 where
    here : Reach s s
    next : {t u : Shared W} → Reach s t → Step t u → Reach s u

-- Data in the queue is polled for, or a thread is about to ask for it; while the write poll is about
-- to be stopped only the latter counts.
abbrev Covered : {W : Type 0} → Shared W → Phase → Type 0
Covered s resting = (s.polls_out ≡ true) ⊎ (0 < s.asking)
Covered s (served true) = 0 < s.asking
Covered s (served false) = (s.polls_out ≡ true) ⊎ (0 < s.asking)

abbrev pub IsAwake : {W : Type 0} → Shared W → Type 0
IsAwake s = (s.async.send_q ≡ []) ⊎ Covered s s.phase

module _ {W : Type 0} where
  Covered-asked : (s : Shared W) (p : Phase) → 0 < s.asking → Covered s p
  Covered-asked s resting h = inr h
  Covered-asked s (served true) h = h
  Covered-asked s (served false) h = inr h

  enqueue-Covered :
      (s : Shared W) (a : Async SendQElement W) (n : ℕ) (p : Phase)
      → Covered s p
      → Covered (record s { async = a; asking = s.asking + n }) p
  enqueue-Covered s a n resting c = ground arith
  enqueue-Covered s a n (served true) c = omega arith
  enqueue-Covered s a n (served false) c = ground arith

module _ {W : Type 0} (sock : Sock W) (laws : SockLaws sock) where
  enqueue-IsAwake :
      (b : List ℕ) (s : Shared W)
      → IsAwake s
      → IsAwake
          (record s { async = (send b s.async).1; asking = s.asking + asks (send b s.async).0.1 })
  unfolding send
  enqueue-IsAwake b s (inl q) =
      let t : Shared W = record s {
        async = (send b s.async).1;
        asking = s.asking + asks (send b s.async).0.1;
      } in
      inr (
        Covered-asked t s.phase
          (omega (arith, ap (λ (l : List SendQElement). asks (is_empty l)) q)))
  enqueue-IsAwake b s (inr c) = inr (enqueue-Covered s (send b s.async).1 _ s.phase c)

  -- `DriverOnWritable` reports an empty queue only if it is empty.
  emptied_or_not :
      (front : SendQElement) (rest : List SendQElement) (a : Async SendQElement W) (emptied : Bool)
      → a.send_q ≡ front ∷ rest
      → (driver_send sock a).0 ≡ ok emptied
      → ((driver_send sock a).1.send_q ≡ []) ⊎ (emptied ≡ false)
  emptied_or_not front rest a emptied q r = elim (driver_send-Sending sock laws front rest a q) [
    | partial k c lt r' e f st ↦ inr (cc)
    | complete c r' e f st ↦ empty_rest rest e (sym r ∙ r')
    | failed x c k r' e f w ↦ empty_rest rest e (sym r ∙ r')
    | thrown x c k r' e f w ↦ cc
  ]
    where
      empty_rest :
          (l : List SendQElement)
          → (driver_send sock a).1.send_q ≡ l
          → ok emptied ≡ ok (is_empty l)
          → ((driver_send sock a).1.send_q ≡ []) ⊎ (emptied ≡ false)
      empty_rest [] e k = inl e
      empty_rest (x ∷ l) e k = inr (cc)

  serve-IsAwake :
      (s : Shared W) (a : Async SendQElement W) (emptied : Bool)
      → s.polls_out ≡ true
      → (a.send_q ≡ []) ⊎ (emptied ≡ false)
      → IsAwake (record s { async = a; phase = served emptied })
  serve-IsAwake s a true po (inl q) = inl q
  serve-IsAwake s a true po (inr f) = cc
  serve-IsAwake s a false po c = inr (inl po)

  finish-IsAwake :
      (s : Shared W) (emptied : Bool)
      → (s.async.send_q ≡ []) ⊎ Covered s (served emptied)
      → IsAwake (record s { polls_out = if emptied then false else s.polls_out; phase = resting })
  finish-IsAwake s emptied (inl q) = inl q
  finish-IsAwake s true (inr c) = inr (inr c)
  finish-IsAwake s false (inr c) = inr c

  -- Each step of either thread keeps it so that queued data is polled for or about to be asked for.
  pub Step-IsAwake : (s t : Shared W) → Step sock s t → IsAwake s → IsAwake t
  Step-IsAwake s t (enqueue b e) a = subst IsAwake (sym e) (enqueue-IsAwake b s a)
  Step-IsAwake s t (want_send p lt e) a = subst IsAwake (sym e) (inr (rw p (inl refl)))
  Step-IsAwake s t (serve front rest em p po q r e) a = subst IsAwake (sym e) (
      serve-IsAwake s (driver_send sock s.async).1 em po (emptied_or_not front rest s.async em q r))
  Step-IsAwake s t (finish em p e) a =
      subst IsAwake (sym e)
        (finish-IsAwake s em (subst (λ q. (s.async.send_q ≡ []) ⊎ Covered s q) p a))

  -- No queued data is forgotten: from a state with an empty queue on, however the threads interleave,
  -- whenever the queue holds data and the driver is not just serving the socket, the socket is polled
  -- for writing or a thread is about to ask for that.
  pub Reach-IsAwake :
      (s t : Shared W)
      → s.async.send_q ≡ []
      → Reach sock s t
      → t.phase ≡ resting
      → (t.async.send_q ≡ []) ⊎ (t.polls_out ≡ true) ⊎ (0 < t.asking)
  Reach-IsAwake s t q r p = subst (λ x. (t.async.send_q ≡ []) ⊎ Covered t x) p (reach r)
    where
      reach : {u : Shared W} → Reach sock s u → IsAwake u
      reach here = inl q
      reach (next {t = v} {u = w} r' st) = Step-IsAwake v w st (reach r')
