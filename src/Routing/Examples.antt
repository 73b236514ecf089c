-- ===== src/Routing/Examples.antt =====
-- The routing of model calls on small inputs.
use lula.Prelude.{
  ℕ, ◌≡◌, ◌<◌, ◌≤◌, ◌≢◌, ◌*◌, refl, inr, String, true, some, none, List, [], ◌∷◌, arith, str_eq,
  eq_iff, leb, ltb, length, count_if,
}
use lula.Prelude.Dicts.{get}
use lula.Prelude.Members.{contains}
use lula.Routing.Decide.{RouteRequest, remote, route, decide_parts}
use lula.Routing.Decide.Capability.{route-more}
use lula.Routing.Latency.{LatencyWindow, SlaRoutingPolicy, degraded_models, latency_parts}
use lula.Routing.Latency.Percentile.{percentile-counts}
use lula.Routing.Latency.Fallback.{select_model-degraded}
use lula.Routing.Reflections.{FailureReflection, new_pool}
use lula.Routing.Reflections.Kept.{add_reflections, add_reflections-from_end}
use lula.Routing.Diversity.{DiversityRoutingPolicy}

abbrev request : RouteRequest
request = record {
  task_class = "edit";
  primary_provider = "remote";
  primary_model = "large";
  local_provider = "local";
  fallback_task_classes = "edit" ∷ [];
  lane = none;
  context_tokens = 100;
  retry_count = 0;
  latency_sensitive = true;
  cache_affinity = "";
  prefix_segment = "";
  interactive_context_limit = 1800;
  deep_planning_context_limit = 3200;
  compression_pressure = 2;
  fact_count = 0;
}

route-more_example :
    (route (record request {
      context_tokens = 4000;
      compression_pressure = 2;
      fact_count = 5;
    })).provider_used
    ≡ remote
unfolding decide_parts
route-more_example = route-more request 4000 2 5 (omega arith) (omega arith) (omega arith) refl

abbrev slow_samples : List ℕ
slow_samples = 9 ∷ 4 ∷ 7 ∷ 8 ∷ 9 ∷ []

abbrev slow_window : LatencyWindow
slow_window = record { model_id = "large"; window_size = 5; buf = slow_samples }

percentile-counts_example :
    (95 * length slow_samples < 100 * count_if (λ y. leb y 9) slow_samples)
    × (100 * count_if (λ y. ltb y 9) slow_samples ≤ 95 * length slow_samples)
unfolding latency_parts
percentile-counts_example = percentile-counts slow_samples 9 refl

abbrev latency_policy : SlaRoutingPolicy
latency_policy = record {
  thresholds = ("large", 5) ∷ [];
  fallbacks = ("large", "small") ∷ [];
  windows = ("large", slow_window) ∷ [];
}

abbrev small : String
small = "small"

abbrev large : String
large = "large"

large_is_other : small ≢ large
large_is_other e = let same : str_eq small large ≡ true = (eq_iff small large).1 e in cc

select_model-degraded_example :
    (contains "large" (degraded_models latency_policy) ≡ true)
    × (get "large" latency_policy.fallbacks ≡ some "small")
unfolding latency_parts
select_model-degraded_example =
    select_model-degraded latency_policy "large" "small" refl large_is_other

abbrev reflection : String → FailureReflection
reflection text = record {
  loop_index = 1;
  model_used = "large";
  failure_class = "test_failure";
  reflection = text;
}

add_reflections-from_end_example :
    (add_reflections (reflection "a" ∷ reflection "b" ∷ []) (new_pool 1)).reflections
    ≡ reflection "b" ∷ []
unfolding new_pool
add_reflections-from_end_example =
    add_reflections-from_end (reflection "a" ∷ reflection "b" ∷ []) (new_pool 1) (inr (omega arith))

abbrev rotation : DiversityRoutingPolicy
rotation = record { models = "large" ∷ "small" ∷ []; index = 0; temp_index = 0 }
