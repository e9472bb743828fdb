-- ===== src/Startup/Drained.antt =====
-- What holds when `serveUntil` returns, and that it does return.
use prompt_sdk.Prelude.{
  ℕ, zero, suc, ◌+◌, ◌≤◌, ◌<◌, ◌≡◌, ◌≢◌, ◌⊎◌, ◌↔◌, inl, inr, refl, true, none, some, arith,
  if◌then◌else◌,
}
use prompt_sdk.Startup.Serving.{
  server_closed, Caller, serving, cancelling, waiting, returned, Closer, idle, shutting_down,
  finished, Server, Move, signalled, answered, woken, drained, timed_out, closed, failed, cancelled,
  joined, Step, accepted, moved, Reach, start, later, result,
}

-- What every step keeps.
pub record IsOrderly (s : Server) : Type 0 where
  pub awake : s.closer ≢ idle → s.ctx_done ≡ true
  pub quiet : s.closer ≡ finished → (s.in_flight ≡ 0) ⊎ (s.shutdown_failed ≡ true)
  pub shut : s.ended ≡ some server_closed → s.closer ≢ idle
  pub over : s.caller ≢ serving → s.ended ≢ none
  pub open_until : s.caller ≡ serving → s.ended ≡ none
  pub heard : s.caller ≡ waiting → s.ctx_done ≡ true
  pub joined_last : s.caller ≡ returned → s.closer ≡ finished

Move-IsOrderly : {s t : Server} → Move s t → IsOrderly s → IsOrderly t
Move-IsOrderly (signalled h e) o = ground arith
Move-IsOrderly (answered n h e) o = ground arith
Move-IsOrderly (woken h f e) o = ground arith
Move-IsOrderly (drained h f e) o = ground arith
Move-IsOrderly (timed_out h e) o = ground arith
Move-IsOrderly (closed h f e) o = ground arith
Move-IsOrderly (failed h f e) o = ground arith
Move-IsOrderly (cancelled h e) o = ground arith
Move-IsOrderly (joined h f e) o = ground arith

Step-IsOrderly : {s t : Server} → Step s t → IsOrderly s → IsOrderly t
Step-IsOrderly (accepted h f e) o = ground arith
Step-IsOrderly (moved m) o = Move-IsOrderly m o

pub Reach-IsOrderly : {s : Server} → Reach s → IsOrderly s
Reach-IsOrderly start = ground arith
Reach-IsOrderly (later r st) = Step-IsOrderly st (Reach-IsOrderly r)

-- When `serveUntil` has returned, the goroutine is over, and every request that was accepted is
-- answered unless Shutdown ran into its timeout; the result is nil exactly if `Serve` ended by
-- ErrServerClosed.
pub serve_until-drained :
    {s : Server}
    → Reach s
    → s.caller ≡ returned
    → (s.closer ≡ finished)
      × ((s.in_flight ≡ 0) ⊎ (s.shutdown_failed ≡ true))
      × ((result s.ended ≡ none) ↔ (s.ended ≡ some server_closed))
unfolding result
serve_until-drained {s} r back = ground (arith, Reach-IsOrderly r)

abbrev caller_left : Caller → ℕ
caller_left serving = 3
caller_left cancelling = 2
caller_left waiting = 1
caller_left returned = 0

abbrev closer_left : Closer → ℕ
closer_left idle = 2
closer_left shutting_down = 1
closer_left finished = 0

-- The moves that are left, at most.
abbrev pub moves_left : Server → ℕ
moves_left s =
    caller_left s.caller + closer_left s.closer + s.in_flight + (if s.ctx_done then 0 else 1)

Move-moves_left : {s t : Server} → Move s t → moves_left t < moves_left s
Move-moves_left (signalled h e) = ground arith
Move-moves_left (answered n h e) = ground arith
Move-moves_left (woken h f e) = ground arith
Move-moves_left (drained h f e) = ground arith
Move-moves_left (timed_out h e) = ground arith
Move-moves_left (closed h f e) = ground arith
Move-moves_left (failed h f e) = ground arith
Move-moves_left (cancelled h e) = ground arith
Move-moves_left (joined h f e) = ground arith

-- The process was signalled, or `Serve` is over.
abbrev pub IsEnding : Server → Type 0
IsEnding s = (s.ctx_done ≡ true) ⊎ (s.caller ≢ serving)

Move-IsEnding : {s t : Server} → Move s t → IsEnding s → IsEnding t
Move-IsEnding (signalled h e) i = ground arith
Move-IsEnding (answered n h e) i = ground arith
Move-IsEnding (woken h f e) i = ground arith
Move-IsEnding (drained h f e) i = ground arith
Move-IsEnding (timed_out h e) i = ground arith
Move-IsEnding (closed h f e) i = ground arith
Move-IsEnding (failed h f e) i = ground arith
Move-IsEnding (cancelled h e) i = ground arith
Move-IsEnding (joined h f e) i = ground arith

-- At most `n` moves can follow, some move can follow as long as the caller is not back, and so
-- each run of moves ends with the caller back.
pub data Returns : ℕ → Server → Type 0 where
  back : {n : ℕ} {s : Server} → s.caller ≡ returned → Returns n s
  next :
      {n : ℕ} {s : Server} (t : Server)
      → Move s t
      → ((u : Server) → Move s u → Returns n u)
      → Returns (suc n) s

module _ (s : Server) (o : IsOrderly s) (i : IsEnding s) where
  enabled :
      (c : Caller) (k : Closer)
      → s.caller ≡ c
      → s.closer ≡ k
      → s.caller ≢ returned
      → (t : Server) × Move s t
  enabled serving idle hc hk away = (_, woken hk (ground arith) refl)
  enabled serving shutting_down hc hk away = (_, closed hc (ground arith) refl)
  enabled serving finished hc hk away = (_, closed hc (ground arith) refl)
  enabled cancelling k hc hk away = (_, cancelled hc refl)
  enabled waiting idle hc hk away = (_, woken hk (o.heard hc) refl)
  enabled waiting shutting_down hc hk away = (_, timed_out hk refl)
  enabled waiting finished hc hk away = (_, joined hc hk refl)
  enabled returned k hc hk away = absurd (away hc)

Caller-cases : (c : Caller) → (c ≡ returned) ⊎ (c ≢ returned)
Caller-cases serving = inr (ground arith)
Caller-cases cancelling = inr (ground arith)
Caller-cases waiting = inr (ground arith)
Caller-cases returned = inl refl

Returns-within : (n : ℕ) (s : Server) → moves_left s ≤ n → IsOrderly s → IsEnding s → Returns n s
Returns-within zero s h o i = elim (Caller-cases s.caller) [
  | inl e ↦ back e
  | inr away ↦
      let (t, m) = enabled s o i s.caller s.closer refl refl away in
      absurd (omega (arith, Move-moves_left m))
]
Returns-within (suc n) s h o i = elim (Caller-cases s.caller) [
  | inl e ↦ back e
  | inr away ↦
      let (t, m) = enabled s o i s.caller s.closer refl refl away in
      next t m (λ u v.
        Returns-within n u (omega (arith, Move-moves_left v)) (Move-IsOrderly v o)
          (Move-IsEnding v i))
]

caller_bound : (c : Caller) → (caller_left c ≤ 3) × (c ≢ serving → caller_left c ≤ 2)
caller_bound c = ground arith

closer_bound : (k : Closer) → closer_left k ≤ 2
closer_bound k = ground arith

moves_bound : (s : Server) → IsEnding s → moves_left s ≤ s.in_flight + 5
moves_bound s (inl done) = ground (arith, caller_bound s.caller, closer_bound s.closer)
moves_bound s (inr over) = ground (arith, caller_bound s.caller, closer_bound s.closer)

-- Once the process is signalled or `Serve` is over, `serveUntil` returns: until then some move is
-- possible, and each run of moves is back after at most five of them and one for each request in
-- flight, if no further request arrives.
pub serve_until-Returns : {s : Server} → Reach s → IsEnding s → Returns (s.in_flight + 5) s
serve_until-Returns {s} r i = Returns-within _ s (moves_bound s i) (Reach-IsOrderly r) i
