-- ===== src/Audit/Delivery.antt =====
-- `runtime.write` in audit/context.go, past the stamp: the slots for deliveries in flight. A
-- delivery is a goroutine that gives its slot back when the sink returns, in any order.
use prompt_sdk.Prelude.{
  ℕ, zero, suc, ◌+◌, ◌≤◌, ◌≡◌, refl, ap, ◌∙◌, Bool, true, List, [], ◌∷◌, ltb, length, arith,
  if◌then◌else◌,
}
use prompt_sdk.Event.{Event}

unfoldable pub max_concurrent_deliveries : ℕ
max_concurrent_deliveries = 64

pub record Pool : Type 0 where
  pub in_flight : List Event
  pub finished : List Event
  pub dropped : List Event

abbrev pub idle : Pool
idle = record { in_flight = []; finished = []; dropped = [] }

-- the `select` of `write`
unfoldable pub offer : Event → Pool → Pool
unfolding max_concurrent_deliveries
offer e p =
    if ltb (length p.in_flight) max_concurrent_deliveries
    then record p { in_flight = e ∷ p.in_flight }
    else record p { dropped = e ∷ p.dropped }

-- The deferred receive: the delivery at place `i` is over.
finish_at : ℕ → List Event → Pool → Pool
finish_at i [] p = p
finish_at zero (x ∷ xs) p = record p { in_flight = xs; finished = x ∷ p.finished }
finish_at (suc i) (x ∷ xs) p = let q = finish_at i xs p in record q { in_flight = x ∷ q.in_flight }

unfoldable pub over : ℕ → Pool → Pool
unfolding finish_at
over i p = finish_at i p.in_flight (record p { in_flight = [] })

-- How the pool comes about: by the events offered so far, the last one first, with deliveries
-- that end in between, at any place.
pub data Run : List Event → Pool → Type 0 where
  start : Run [] idle
  offered : {es : List Event} {p : Pool} (e : Event) → Run es p → Run (e ∷ es) (offer e p)
  ended : {es : List Event} {p : Pool} (i : ℕ) → Run es p → Run es (over i p)

abbrev pub count : (Event → Bool) → List Event → ℕ
count t [] = 0
count t (e ∷ es) = if t e then suc (count t es) else count t es

count-le-length : (t : Event → Bool) (es : List Event) → count t es ≤ length es
count-le-length t [] = omega arith
count-le-length t (e ∷ es) = ground (arith, count-le-length t es)

count-all : (es : List Event) → count (λ _. true) es ≡ length es
count-all [] = refl
count-all (e ∷ es) = ap suc (count-all es)

finish_at-count :
    (t : Event → Bool) (i : ℕ) (xs : List Event) (p : Pool)
    → p.in_flight ≡ []
    → (count t (finish_at i xs p).in_flight + count t (finish_at i xs p).finished
        ≡ count t xs + count t p.finished)
      × ((finish_at i xs p).dropped ≡ p.dropped)
unfolding finish_at
finish_at-count t i [] p h = (rw h, refl)
finish_at-count t zero (x ∷ xs) p h = ground arith
finish_at-count t (suc i) (x ∷ xs) p h = ground (arith, finish_at-count t i xs p h)

finish_at-length :
    (i : ℕ) (xs : List Event) (p : Pool)
    → p.in_flight ≡ []
    → length (finish_at i xs p).in_flight ≤ length xs
unfolding finish_at
finish_at-length i [] p h = rw h (omega arith)
finish_at-length zero (x ∷ xs) p h = omega arith
finish_at-length (suc i) (x ∷ xs) p h = omega (arith, finish_at-length i xs p h)

-- The end of a delivery only moves an event.
over_moves :
    (t : Event → Bool) (i : ℕ) (p : Pool)
    → (count t (over i p).in_flight + count t (over i p).finished
        ≡ count t p.in_flight + count t p.finished)
      × ((over i p).dropped ≡ p.dropped)
      × (length (over i p).in_flight ≤ length p.in_flight)
unfolding over
over_moves t i p =
    let q = record p { in_flight = [] } in
    let (counted, kept) = finish_at-count t i p.in_flight q refl in
    (counted, kept, finish_at-length i p.in_flight q refl)

-- No event is lost or delivered twice: of the events that were offered, whatever the test, as
-- many are in flight, finished or dropped, in all.
pub Run-count :
    {es : List Event} {p : Pool} (t : Event → Bool)
    → Run es p
    → count t es ≡ count t p.in_flight + count t p.finished + count t p.dropped
unfolding offer
Run-count t start = refl
Run-count t (offered {p} e r) = ground (arith, Run-count t r)
Run-count t (ended {p} i r) =
    let (counted, kept, _) = over_moves t i p in rw kept (omega (arith, Run-count t r, counted))

-- At most 64 deliveries are in flight at once, and none of the first 64 events is dropped, however
-- slow the sink is.
pub Run-bounds :
    {es : List Event} {p : Pool}
    → Run es p
    → (length p.in_flight ≤ 64) × (length es ≤ 64 → p.dropped ≡ [])
unfolding offer
Run-bounds start = (omega arith, λ h. refl)
Run-bounds (offered {es} {p} e r) =
    ground (arith, Run-bounds r, Run-count (λ _. true) r, count-all es, count-all p.in_flight)
Run-bounds (ended {p} i r) =
    let (_, kept, shorter) = over_moves (λ _. true) i p in
    let (slots, none_dropped) = Run-bounds r in
    (omega (arith, shorter, slots), λ h. kept ∙ none_dropped h)
