-- ===== src/Tests/Shutdown.antt =====
-- The theorems on the end of a server at a concrete run.
use prompt_sdk.Prelude.{◌+◌, ◌≡◌, ◌↔◌, ◌⊎◌, inl, refl, true, none, some, arith}
use prompt_sdk.Startup.Serving.{
  server_closed, cancelling, waiting, returned, shutting_down, finished, Server, started, signalled,
  answered, woken, drained, closed, cancelled, joined, accepted, moved, Reach, start, later, result,
}
use prompt_sdk.Startup.Drained.{serve_until-drained, Returns, serve_until-Returns}

-- A request comes in, and the process is signalled while it is served.
abbrev busy : Server
busy = record started { in_flight = 1; ctx_done = true }

abbrev shutting : Server
shutting = record busy { closer = shutting_down }

abbrev left_serve : Server
left_serve = record shutting { caller = cancelling; ended = some server_closed }

abbrev served : Server
served = record left_serve { in_flight = 0 }

abbrev closer_done : Server
closer_done = record served { closer = finished }

abbrev at_join : Server
at_join = record closer_done { caller = waiting }

abbrev gone : Server
gone = record at_join { caller = returned }

busy_reached : Reach busy
busy_reached = later (later start (accepted refl refl refl)) (moved (signalled refl refl))

shutting_reached : Reach shutting
shutting_reached = later busy_reached (moved (woken refl refl refl))

gone_reached : Reach gone
gone_reached =
    later
      (later
        (later
          (later (later shutting_reached (moved (closed refl (ground arith) refl)))
            (moved (answered 0 refl refl)))
          (moved (drained refl refl refl)))
        (moved (cancelled refl refl)))
      (moved (joined refl refl refl))

serve_until-drained_example :
    (gone.closer ≡ finished)
    × ((gone.in_flight ≡ 0) ⊎ (gone.shutdown_failed ≡ true))
    × ((result gone.ended ≡ none) ↔ (gone.ended ≡ some server_closed))
serve_until-drained_example = serve_until-drained gone_reached refl

serve_until-Returns_example : Returns (busy.in_flight + 5) busy
serve_until-Returns_example = serve_until-Returns busy_reached (inl refl)
