-- ===== src/Startup/Refinement.antt =====
-- `serveUntil` of bootstrap.go against what it promises: a service that takes requests until it
-- begins to stop, takes none after that, and is down only once the requests that it took are
-- answered or Shutdown has given up on them.
use prompt_sdk.Prelude.{ℕ, suc, ◌+◌, ◌≡◌, ◌⊎◌, Bool, true}
use prompt_sdk.Startup.Serving.{Caller, serving, returned, Closer, idle, Server, started}

pub data Phase : Type 0 where
  up draining down : Phase

pub record Service : Type 0 where
  pub phase : Phase
  pub open_requests : ℕ
  pub gave_up : Bool

-- What the service may do.
pub data Change (p q : Service) : Type 0 where
  takes : p.phase ≡ up → q ≡ record p { open_requests = p.open_requests + 1 } → Change p q
  answers : (n : ℕ) → p.open_requests ≡ suc n → q ≡ record p { open_requests = n } → Change p q
  begins : p.phase ≡ up → q ≡ record p { phase = draining } → Change p q
  gives_up : p.phase ≡ draining → q ≡ record p { gave_up = true } → Change p q
  ends :
      p.phase ≡ draining
      → (p.open_requests ≡ 0) ⊎ (p.gave_up ≡ true)
      → q ≡ record p { phase = down }
      → Change p q

-- The server takes requests as long as the caller is in `Serve` and the goroutine has not begun
-- with Shutdown.
abbrev pub phase_of : Caller → Closer → Phase
phase_of returned k = down
phase_of serving idle = up
phase_of _ _ = draining

abbrev pub service_of : Server → Service
service_of s = record {
  phase = phase_of s.caller s.closer;
  open_requests = s.in_flight;
  gave_up = s.shutdown_failed;
}

-- A service that is up with no request, after any changes.
pub data Promised : Service → Type 0 where
  opened : (p : Service) → p ≡ service_of started → Promised p
  changed : {p q : Service} → Promised p → Change p q → Promised q
