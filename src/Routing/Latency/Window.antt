-- ===== src/Routing/Latency/Window.antt =====
-- What a window of latencies holds.
use lula.Prelude.{
  ℕ, ◌-◌, ◌≤◌, ◌≡◌, ◌∙◌, ap, List, [], ◌∷◌, ◌++◌, arith, length, last_n, drop, last_n-append,
  length-last_n,
}
use mathlib.Core.List.{append-nil, append_assoc}
use lula.Routing.Latency.{LatencyWindow, record_sample}

pub record_samples : List ℕ → LatencyWindow → LatencyWindow
record_samples [] w = w
record_samples (x ∷ xs) w = record_samples xs (record_sample x w)

-- A window that holds no more than its size holds, after any samples, the last ones of all that it
-- held and got, as many as its size.
pub record_samples-last_n :
    (xs : List ℕ) (w : LatencyWindow)
    → length w.buf ≤ w.window_size
    → (record_samples xs w).buf ≡ last_n w.window_size (w.buf ++ xs)
unfolding record_samples record_sample
record_samples-last_n [] w h = rw (append-nil w.buf) (ap (λ k. drop k w.buf) zero_is)
  where
    zero_is : 0 ≡ length w.buf - w.window_size
    zero_is = omega (arith, h)
record_samples-last_n (x ∷ xs) w h =
    record_samples-last_n xs (record_sample x w) (length-last_n w.window_size (w.buf ++ x ∷ []))
    ∙ last_n-append w.window_size (w.buf ++ x ∷ []) xs
    ∙ ap (λ l. last_n w.window_size l) (append_assoc w.buf (x ∷ []) xs)
