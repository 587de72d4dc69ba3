-- ===== src/Errors/Tests.antt =====
-- Runs of the error values.
use ash_jazz_ai_agent.Prelude.{◌≡◌, refl, [], true, some}
use ash_jazz_ai_agent.Errors.{Sentinel, Class, sentinel, wrapf, is, new}

wrapped_upstream :
    is
      (wrapf "a: %w" [] (new Class.caller "m" (some (sentinel Sentinel.upstream))))
      Sentinel.upstream
    ≡ true
unfolding is new
wrapped_upstream = refl
