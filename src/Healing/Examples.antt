-- ===== src/Healing/Examples.antt =====
-- One poll of a suite with a failing test.
use lula.Prelude.{◌≡◌, ◌≤◌, refl, none, some, [], ◌∷◌, length}
use lula.Healing.{
  HealingLoop, Patterns, exited, poll_once, enqueue, dispatch_pending_jobs, start, here, next,
  polls, healing_parts,
}
use lula.Healing.Queue.{queued_places}
use lula.Healing.Runs.{Reach-queue}

abbrev patterns : Patterns
patterns = record {
  find_passed = λ text. some 3;
  find_failed = λ text. some 1;
  find_error = λ text. none;
  find_failed_lines = λ text. "test_a" ∷ [];
}

abbrev polled : HealingLoop
polled = dispatch_pending_jobs 1 (enqueue (poll_once patterns (exited 1 "output")) start)

Reach-queue_example : (polled.pending ≡ queued_places polled.jobs) × (length polled.live ≤ 1)
unfolding healing_parts
Reach-queue_example =
    Reach-queue 1 polled (next here (polls start (poll_once patterns (exited 1 "output")) refl))
