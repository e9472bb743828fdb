-- ===== src/TestDb/Balance.antt =====
-- What a test database opens and closes.
use prompt_sdk.Prelude.{
  ℕ, zero, suc, ◌+◌, ◌≡◌, ◌≢◌, ◌↔◌, ◌⊎◌, refl, none, List, [], ◌∷◌, ◌++◌, Text, Bool-cases,
  Option-cases, arith, if◌then◌else◌, inl, inr,
}
use prompt_sdk.TestDb.{
  TestWorld, ContainerRun, not_started, started_with_error, started, TestAction, container_started,
  container_terminated, conn_opened, conn_closed, executed, connect, run_files, with_conn,
  with_container, setup_test_db,
}

abbrev pub containers : TestAction → ℕ
containers container_started = 1
containers _ = 0

abbrev pub terminations : TestAction → ℕ
terminations container_terminated = 1
terminations _ = 0

abbrev pub opens : TestAction → ℕ
opens conn_opened = 1
opens _ = 0

abbrev pub closes : TestAction → ℕ
closes conn_closed = 1
closes _ = 0

abbrev pub total : (TestAction → ℕ) → List TestAction → ℕ
total f [] = 0
total f (a ∷ trace) = f a + total f trace

total-append :
    (f : TestAction → ℕ) (s t : List TestAction) → total f (s ++ t) ≡ total f s + total f t
total-append f [] t = omega arith
total-append f (a ∷ s) t = omega (arith, total-append f s t)

-- The files that were executed, in order.
abbrev pub files : List TestAction → List Text
files [] = []
files (executed path ∷ trace) = path ∷ files trace
files (_ ∷ trace) = files trace

abbrev pub IsBalanced : List TestAction → Type 0
IsBalanced trace =
    (total terminations trace ≡ total containers trace) × (total closes trace ≡ total opens trace)

-- One container runs and one pool is open.
abbrev IsUp : List TestAction → Type 0
IsUp trace =
    (total containers trace ≡ 1)
    × (total terminations trace ≡ 0)
    × (total opens trace ≡ total closes trace + 1)

totals-append :
    (s t : List TestAction)
    → (total containers (s ++ t) ≡ total containers s + total containers t)
      × (total terminations (s ++ t) ≡ total terminations s + total terminations t)
      × (total opens (s ++ t) ≡ total opens s + total opens t)
      × (total closes (s ++ t) ≡ total closes s + total closes t)
totals-append s t = (
  total-append containers s t,
  total-append terminations s t,
  total-append opens s t,
  total-append closes s t,
)

-- A part of a trace that holds only files.
abbrev OnlyFiles : List TestAction → Type 0
OnlyFiles trace =
    (total containers trace ≡ 0)
    × (total terminations trace ≡ 0)
    × (total opens trace ≡ 0)
    × (total closes trace ≡ 0)

run_cases : (r : ContainerRun) → (r ≡ started_with_error) ⊎ ((r ≡ not_started) ⊎ (r ≡ started))
run_cases started_with_error = inl refl
run_cases not_started = inr (inl refl)
run_cases started = inr (inr refl)

module _ (w : TestWorld) where
  run_files-OnlyFiles : (ps : List Text) → OnlyFiles (run_files w ps).0
  unfolding run_files
  run_files-OnlyFiles [] = ground arith
  run_files-OnlyFiles (p ∷ ps) = ground (arith, run_files-OnlyFiles ps)

  -- Each round that fails closes what it opened.
  connect-total :
      (n i : ℕ)
      → (total opens (connect w n i).0
          ≡ total closes (connect w n i).0 + (if (connect w n i).1 then 1 else 0))
        × (total containers (connect w n i).0 ≡ 0)
        × (total terminations (connect w n i).0 ≡ 0)
  unfolding connect
  connect-total zero i = ground arith
  connect-total (suc n) i = ground (arith, connect-total n (suc i))

  with_conn-IsBalanced :
      (trace : List TestAction) (ps : List Text)
      → IsUp trace
      → IsBalanced ((with_conn w trace ps).trace ++ (with_conn w trace ps).cleanup)
  unfolding with_conn
  with_conn-IsBalanced trace ps is_up =
      let ran = (run_files w ps).0 in
      let stop = conn_closed ∷ container_terminated ∷ [] in
      elim (Option-cases (run_files w ps).1) [
        | inl e ↦ ground (
          arith,
          totals-append (trace ++ ran) stop,
          totals-append trace ran,
          run_files-OnlyFiles ps,
        )
        | inr (bad, e) ↦ ground (
          arith,
          totals-append (trace ++ (ran ++ stop)) [],
          totals-append trace (ran ++ stop),
          totals-append ran stop,
          run_files-OnlyFiles ps,
        )
      ]

  with_container-IsBalanced :
      (ps : List Text) → IsBalanced ((with_container w ps).trace ++ (with_container w ps).cleanup)
  unfolding with_container
  with_container-IsBalanced ps =
      let rounds = (connect w 5 0).0 in
      let stop = container_terminated ∷ [] in
      elim (Bool-cases (connect w 5 0).1) [
        | inl h ↦ rw h (
            with_conn-IsBalanced (container_started ∷ rounds) ps
              (ground (arith, connect-total 5 0)))
        | inr h ↦ rw h (
            ground (
              arith,
              connect-total 5 0,
              totals-append (container_started ∷ (rounds ++ stop)) [],
              totals-append rounds stop,
            ))
      ]

  -- What the set-up of a test database and the clean-up that it returns do terminates each
  -- container that was started and closes each pool that was opened, once, exactly unless the
  -- container was started and its request failed all the same: that container is left running.
  pub setup_test_db-IsBalanced_iff :
      (ps : List Text)
      → IsBalanced ((setup_test_db w ps).trace ++ (setup_test_db w ps).cleanup)
        ↔ (w.container ≢ started_with_error)
  unfolding setup_test_db
  setup_test_db-IsBalanced_iff ps = elim (run_cases w.container) [
    | inl e ↦ ((λ h. absurd (ground (arith, h.0))), (λ k. absurd (k e)))
    | inr (inl e) ↦ ((λ h. ground arith), (λ k. ground arith))
    | inr (inr e) ↦ ((λ h. ground arith), (λ k. ground (arith, with_container-IsBalanced ps)))
  ]

  run_files-files : (ps : List Text) → (run_files w ps).1 ≡ none → files (run_files w ps).0 ≡ ps
  unfolding run_files
  run_files-files [] h = refl
  run_files-files (p ∷ ps) h = ground (arith, run_files-files ps)
