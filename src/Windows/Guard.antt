-- ===== src/Windows/Guard.antt =====
-- The count of instances in src/winsock_guard.cpp while WSAStartup succeeds, and after it has failed.
use sockpuppet.Base.{
  ℕ, zero, suc, ◌≡◌, refl, List, [], ◌∷◌, Result, ok, err, arith, ap, system_error, subst, sym,
}
use sockpuppet.Base.Int.{pos}
use sockpuppet.Windows.{
  Winsock, Process, started, update_instance_count, construct_guard, destroy_guard,
}
use sockpuppet.Tls.Construct.Guard.{
  Change, construct, destroy, instances, IsPaired, plus_one, minus_one,
}

module _ (winsock : Winsock) where
  open winsock use {World}

  abbrev pub change_count : Change → Process World → Process World
  change_count construct s = (construct_guard winsock s).1
  change_count destroy s = destroy_guard winsock s

  abbrev pub run_changes : List Change → Process World → Process World
  run_changes [] s = s
  run_changes (c ∷ cs) s = run_changes cs (change_count c s)

  -- Whether each guard of the run is constructed without an exception.
  abbrev pub AllConstructed : List Change → Process World → Type 0
  AllConstructed [] s = Unit {0}
  AllConstructed (construct ∷ cs) s =
      ((construct_guard winsock s).0 ≡ ok tt) × AllConstructed cs (change_count construct s)
  AllConstructed (destroy ∷ cs) s = AllConstructed cs (change_count destroy s)

  -- A count above zero: nothing is started, and nothing cleaned up.
  construct_one :
      (k : ℕ) (s : Process World)
      → s.curr ≡ pos (suc k)
      → construct_guard winsock s ≡ (ok tt, record s { curr = pos (suc (suc k)) })
  unfolding update_instance_count
  construct_one k s e = rw (e, plus_one (suc k)) (ground arith)

  destroy_one :
      (k : ℕ) (s : Process World)
      → s.curr ≡ pos (suc (suc k))
      → destroy_guard winsock s ≡ record s { curr = pos (suc k) }
  unfolding update_instance_count
  destroy_one k s e = rw (e, destroy_guard, minus_one (suc k)) (ground arith)

  -- The first guard fails because WSAStartup does: it throws, and the count is one all the same.
  failed_first :
      (e : ℕ) (s : Process World)
      → s.curr ≡ pos 0
      → (winsock.startup s.world).0 ≡ suc e
      → ((construct_guard winsock s).0
          ≡ err (system_error (suc e) "failed to intitialize socket subsystem"))
        × ((construct_guard winsock s).1
            ≡ record { curr = pos 1; world = (winsock.startup s.world).1 })
  unfolding update_instance_count
  failed_first e s z f = rw (z, plus_one 0) (after (winsock.startup s.world) f)
    where
      after :
          (r : ℕ × World)
          → r.0 ≡ suc e
          → ((started winsock (pos 1) r).0
              ≡ err (system_error (suc e) "failed to intitialize socket subsystem"))
            × ((started winsock (pos 1) r).1 ≡ record { curr = pos 1; world = r.1 })
      after (zero, w) h = cc
      after (suc x, w) h =
          (ap (λ n. err (system_error n "failed to intitialize socket subsystem")) h, refl)

  -- The run neither starts nor cleans up nor throws, and counts one more than there are living guards.
  abbrev pub Stays : List Change → ℕ → World → Process World → Type 0
  Stays cs k w s =
      ((run_changes cs s).world ≡ w)
      × ((run_changes cs s).curr ≡ pos (suc (instances cs k)))
      × AllConstructed cs s

  one_too_many :
      (cs : List Change) (k : ℕ) (s : Process World)
      → s.curr ≡ pos (suc k)
      → IsPaired cs k
      → Stays cs k s.world s
  one_too_many [] k s e p = (refl, e, tt)
  one_too_many (construct ∷ cs) k s e p =
      let c = construct_one k s e in
      let h =
        subst (Stays cs (suc k) s.world)
          (sym (ap (λ (r : Result (Unit {0}) × Process World). r.1) c))
          (one_too_many cs (suc k) (record s { curr = pos (suc (suc k)) }) refl p) in
      (h.0, h.1, (ap (λ (r : Result (Unit {0}) × Process World). r.0) c, h.2))
  one_too_many (destroy ∷ cs) zero s e p = absurd p
  one_too_many (destroy ∷ cs) (suc k) s e p =
      subst (Stays cs k s.world) (sym (destroy_one k s e))
        (one_too_many cs k (record s { curr = pos (suc k) }) refl p)

  -- If WSAStartup fails for the first guard, its constructor throws; from then on, however guards are
  -- constructed and destroyed, if none is destroyed that was not constructed, each is constructed without
  -- an exception, WSAStartup and WSACleanup are not called any more, and the count is that of the living
  -- guards and one more.
  pub failed_start-stuck :
      (cs : List Change) (e : ℕ) (s : Process World)
      → s.curr ≡ pos 0
      → (winsock.startup s.world).0 ≡ suc e
      → IsPaired cs 0
      → ((construct_guard winsock s).0
          ≡ err (system_error (suc e) "failed to intitialize socket subsystem"))
        × Stays cs 0 (winsock.startup s.world).1 (construct_guard winsock s).1
  failed_start-stuck cs e s z f p =
      let (thrown, left) = failed_first e s z f in
      (
        thrown,
        subst (Stays cs 0 (winsock.startup s.world).1) (sym left) (
            one_too_many cs 0 (record { curr = pos 1; world = (winsock.startup s.world).1 }) refl
              p),
      )
