-- ===== src/Routing/Decide.antt =====
-- decide_model_route (py/src/lg_orch/model_routing.py): which provider serves a call.
-- Counts and limits are natural numbers: the source replaces a negative one by 0 or by 1 where it
-- reads it, and compares context_tokens only with limits of at least 1.
pub mod Capability
use lula.Prelude.{
  ℕ, max, String, Bool, true, false, not, ◌&&◌, ◌||◌, Option, none, some, List, [], ◌∷◌, str_eq,
  leb, ltb, ◌==◌, if◌then◌else◌, keep, map,
}
use lula.Prelude.Members.{contains}
use lula.Prelude.Texts.{strip, is_blank, strip_parts}
use Prim.Native.String.{◌++◌ as ◌⧺◌}

pub data ProviderUsed : Type 0 where
  local remote : ProviderUsed

pub record RouteRequest : Type 0 where
  pub task_class : String
  pub primary_provider : String
  pub primary_model : String
  pub local_provider : String
  pub fallback_task_classes : List String
  pub lane : Option String
  pub context_tokens : ℕ
  pub retry_count : ℕ
  pub latency_sensitive : Bool
  pub cache_affinity : String
  pub prefix_segment : String
  pub interactive_context_limit : ℕ
  pub deep_planning_context_limit : ℕ
  pub compression_pressure : ℕ
  pub fact_count : ℕ

pub record ModelRoutingDecision : Type 0 where
  pub task_class : String
  pub lane : String
  pub provider_used : ProviderUsed
  pub provider : String
  pub model : String
  pub reason : String
  pub fallback_applied : Bool
  pub cache_affinity : String
  pub prefix_segment : String
  pub context_tokens : ℕ
  pub compression_pressure : ℕ
  pub fact_count : ℕ
  pub retry_count : ℕ
  pub latency_sensitive : Bool

-- s or default
pub or_default : String → String → String
or_default s default = if is_blank s then default else s

pub lane_of : Option String → String
lane_of none = ""
lane_of (some s) = strip s

pub fallback_set : List String → List String
fallback_set entries = map strip (keep (λ e. not (is_blank (strip e))) entries)

pub uses_local : RouteRequest → Bool
uses_local r =
    str_eq (or_default (strip r.primary_provider) "local")
      (or_default (strip r.local_provider) "local")

-- The test of the fallback classes.
pub is_fallback : RouteRequest → Bool
is_fallback r =
    contains (strip r.task_class) (fallback_set r.fallback_task_classes)
    && r.compression_pressure == 0
    && r.fact_count == 0

-- The test of the interactive path.
pub is_quick : RouteRequest → Bool
is_quick r =
    str_eq (lane_of r.lane) "interactive"
    && r.latency_sensitive
    && leb r.context_tokens (max r.interactive_context_limit 1)
    && r.compression_pressure == 0
    && r.fact_count == 0

-- The test of the capability path.
pub is_heavy : RouteRequest → Bool
is_heavy r =
    str_eq (lane_of r.lane) "deep_planning"
    || leb (max r.deep_planning_context_limit 1) r.context_tokens
    || ltb 0 r.compression_pressure
    || leb 3 r.fact_count

pub decided :
    RouteRequest → String → ProviderUsed → String → String → String → Bool → ModelRoutingDecision
decided r lane provider_used provider model reason fallback_applied = record {
  task_class = strip r.task_class;
  lane = lane;
  provider_used = provider_used;
  provider = provider;
  model = model;
  reason = reason;
  fallback_applied = fallback_applied;
  cache_affinity = r.cache_affinity;
  prefix_segment = r.prefix_segment;
  context_tokens = r.context_tokens;
  compression_pressure = r.compression_pressure;
  fact_count = r.fact_count;
  retry_count = r.retry_count;
  latency_sensitive = r.latency_sensitive;
}

-- The fields that the decision is made of, before the record validates its lane.
pub route : RouteRequest → ModelRoutingDecision
unfolding decided
route r =
    let lane = lane_of r.lane in
    let primary = or_default (strip r.primary_provider) "local" in
    let model = or_default (strip r.primary_model) "deterministic" in
    let near = or_default (strip r.local_provider) "local" in
    if uses_local r
    then decided r (or_default lane "interactive") local near model "primary_provider_is_local"
        false
    else if str_eq lane "recovery"
    then decided r "recovery" remote primary model "recovery_capability_path" false
    else if is_fallback r
    then decided r (or_default lane "interactive") local near (near ⧺ ":fallback")
        "fallback_task_class_policy" true
    else if is_quick r
    then decided r "interactive" local near (near ⧺ ":interactive") "interactive_low_latency_policy"
        false
    else if is_heavy r
    then decided r (or_default lane "deep_planning") remote primary model
        (if ltb 0 r.compression_pressure || leb 3 r.fact_count
          then "compression_pressure_capability_path"
          else "high_context_capability_path")
        false
    else decided r (or_default lane "interactive") remote primary model "primary_provider_path"
        false

-- RouteLane of py/src/lg_orch/state.py.
abbrev pub route_lanes : List String
route_lanes = "interactive" ∷ "deep_planning" ∷ "recovery" ∷ []

-- `none` is the ValidationError of a lane that is no RouteLane.
pub decide_model_route : RouteRequest → Option ModelRoutingDecision
decide_model_route r = if contains (route r).lane route_lanes then some (route r) else none

-- What a decision on concrete input computes with.
unfoldable pub decide_parts : Unit {0}
unfolding strip_parts contains keep or_default lane_of fallback_set uses_local is_fallback is_quick
    is_heavy decided route decide_model_route
decide_parts = tt
