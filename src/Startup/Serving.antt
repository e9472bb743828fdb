-- ===== src/Startup/Serving.antt =====
-- `serveUntil` of bootstrap.go as a step relation: the thread that calls it, the goroutine that
-- waits for the context and shuts the server down, and the server between them. A step is one
-- action of either thread, of a request, or of the process, in any order. `Serve` and `Shutdown`
-- follow net/http: `Shutdown` stops the accepting of requests at once, `Serve` then returns
-- ErrServerClosed, and `Shutdown` returns when no request is left or the time is over. An error of
-- `Shutdown` is only logged, so it is no part of the state.
use prompt_sdk.Prelude.{ℕ, suc, ◌+◌, ◌≡◌, ◌≢◌, Bool, true, false, Option, none, some}

-- how `Serve` ended
pub data ServeEnd : Type 0 where
  server_closed other_error : ServeEnd

-- The caller: in `Serve`, before `cancel()`, at `<-shutdownDone`, and back with its result.
pub data Caller : Type 0 where
  serving cancelling waiting returned : Caller

-- The goroutine: at `<-ctx.Done()`, in `Shutdown`, and past `close(shutdownDone)`.
pub data Closer : Type 0 where
  idle shutting_down finished : Closer

pub record Server : Type 0 where
  pub caller : Caller
  pub ended : Option ServeEnd  -- `err`, once Serve is over
  pub closer : Closer
  pub ctx_done : Bool
  pub in_flight : ℕ  -- requests that are accepted and not answered
  pub shutdown_failed : Bool  -- Shutdown ran into its timeout

abbrev pub started : Server
started = record {
  caller = serving;
  ended = none;
  closer = idle;
  ctx_done = false;
  in_flight = 0;
  shutdown_failed = false;
}

-- every step but the arrival of a request
pub data Move (s t : Server) : Type 0 where
  signalled : s.ctx_done ≡ false → t ≡ record s { ctx_done = true } → Move s t
  answered : (n : ℕ) → s.in_flight ≡ suc n → t ≡ record s { in_flight = n } → Move s t
  woken : s.closer ≡ idle → s.ctx_done ≡ true → t ≡ record s { closer = shutting_down } → Move s t
  drained :
      s.closer ≡ shutting_down → s.in_flight ≡ 0 → t ≡ record s { closer = finished } → Move s t
  timed_out :
      s.closer ≡ shutting_down
      → t ≡ record s { closer = finished; shutdown_failed = true }
      → Move s t
  closed :
      s.caller ≡ serving
      → s.closer ≢ idle
      → t ≡ record s { caller = cancelling; ended = some server_closed }
      → Move s t
  failed :
      s.caller ≡ serving
      → s.closer ≡ idle
      → t ≡ record s { caller = cancelling; ended = some other_error }
      → Move s t
  cancelled : s.caller ≡ cancelling → t ≡ record s { caller = waiting; ctx_done = true } → Move s t
  joined : s.caller ≡ waiting → s.closer ≡ finished → t ≡ record s { caller = returned } → Move s t

pub data Step (s t : Server) : Type 0 where
  accepted :
      s.caller ≡ serving → s.closer ≡ idle → t ≡ record s { in_flight = s.in_flight + 1 } → Step s t
  moved : Move s t → Step s t

pub data Reach : Server → Type 0 where
  start : Reach started
  later : {s t : Server} → Reach s → Step s t → Reach t

-- the result of `serveUntil`, nil for ErrServerClosed
unfoldable pub result : Option ServeEnd → Option ServeEnd
result (some server_closed) = none
result e = e
