-- ===== src/Routing/Latency.antt =====
-- The routing by latency (py/src/lg_orch/model_routing.py): LatencyWindow, SlaRoutingPolicy and
-- build_sla_policy. Latencies and thresholds are natural numbers of any unit that they share: the
-- code only compares them. The index `int(len(samples) * 0.95)` is `length samples * 95 / 100`, which
-- is the same number for the 200 samples of a window at most. The locks make each method one step.
pub mod Percentile
pub mod Fallback
pub mod Window
use lula.Prelude.{
  ℕ, zero, suc, ◌-◌, ◌*◌, ◌/◌, min, String, Bool, true, false, Option, none, some, List, [], ◌∷◌,
  ◌++◌, leb, ltb, if◌then◌else◌, length, last_n, get_elem?,
}
use lula.Prelude.Dicts.{get, put}

pub record LatencyWindow : Type 0 where
  pub model_id : String
  pub window_size : ℕ
  pub buf : List ℕ

unfoldable pub new_window : String → LatencyWindow
new_window model_id = record { model_id = model_id; window_size = 200; buf = [] }

-- The deque drops its oldest sample where it is full.
pub record_sample : ℕ → LatencyWindow → LatencyWindow
record_sample latency w = record w { buf = last_n w.window_size (w.buf ++ latency ∷ []) }

-- sorted(samples)
pub insert : ℕ → List ℕ → List ℕ
insert x [] = x ∷ []
insert x (y ∷ ys) = if leb x y then x ∷ y ∷ ys else y ∷ insert x ys

pub sorted : List ℕ → List ℕ
sorted [] = []
sorted (x ∷ xs) = insert x (sorted xs)

pub percentile : List ℕ → Option ℕ
percentile samples =
    if ltb (length samples) 5
    then none
    else get_elem? (sorted samples)
        (min (length (sorted samples) * 95 / 100) (length (sorted samples) - 1))

pub p95 : LatencyWindow → Option ℕ
p95 w = percentile w.buf

pub sample_count : LatencyWindow → ℕ
sample_count w = length w.buf

pub record SlaRoutingPolicy : Type 0 where
  pub thresholds : List (String × ℕ)
  pub fallbacks : List (String × String)
  pub windows : List (String × LatencyWindow)

window_or_new : String → Option LatencyWindow → LatencyWindow
window_or_new model_id none = new_window model_id
window_or_new model_id (some w) = w

pub record_latency : String → ℕ → SlaRoutingPolicy → SlaRoutingPolicy
unfolding window_or_new
record_latency model_id latency p = record p {
  windows =
      put model_id (record_sample latency (window_or_new model_id (get model_id p.windows)))
        p.windows;
}

-- p95 > threshold, where both are there.
is_slow : Option ℕ → Option ℕ → Bool
is_slow none threshold = false
is_slow (some p) none = false
is_slow (some p) (some threshold) = ltb threshold p

or_requested : String → Option String → String
or_requested requested none = requested
or_requested requested (some fallback) = fallback

choose : SlaRoutingPolicy → String → Option LatencyWindow → String
choose p requested none = requested
choose p requested (some w) =
    if is_slow (p95 w) (get requested p.thresholds)
    then or_requested requested (get requested p.fallbacks)
    else requested

pub select_model : SlaRoutingPolicy → String → String
unfolding choose is_slow or_requested
select_model p requested = choose p requested (get requested p.windows)

slow_ids : SlaRoutingPolicy → List (String × LatencyWindow) → List String
slow_ids p [] = []
slow_ids p ((model_id, w) ∷ rest) =
    let others = slow_ids p rest in
    if is_slow (p95 w) (get model_id p.thresholds) then model_id ∷ others else others

pub degraded_models : SlaRoutingPolicy → List String
unfolding slow_ids
degraded_models p = slow_ids p p.windows

pub record SlaEntry : Type 0 where
  pub model_id : String
  pub threshold_p95 : ℕ
  pub fallback_model_id : String

add_entries : List SlaEntry → SlaRoutingPolicy → SlaRoutingPolicy
add_entries [] p = p
add_entries (e ∷ es) p = add_entries es (record p {
  thresholds = put e.model_id e.threshold_p95 p.thresholds;
  fallbacks = put e.model_id e.fallback_model_id p.fallbacks;
})

pub build_sla_policy : List SlaEntry → Option SlaRoutingPolicy
unfolding add_entries
build_sla_policy [] = none
build_sla_policy (e ∷ es) =
    some (add_entries (e ∷ es) (record { thresholds = []; fallbacks = []; windows = [] }))

-- What a selection on concrete input computes with.
unfoldable pub latency_parts : Unit {0}
unfolding get put get_elem? new_window record_sample insert sorted percentile p95 window_or_new
    record_latency is_slow or_requested choose select_model slow_ids degraded_models add_entries
    build_sla_policy
latency_parts = tt
