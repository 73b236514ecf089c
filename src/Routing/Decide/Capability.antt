-- ===== src/Routing/Decide/Capability.antt =====
-- Which requests go to the remote provider.
use lula.Prelude.{ℕ, ◌<◌, ◌≤◌, ◌≡◌, String, true, false, some, ◌⊎◌, arith, refl, inl, inr}
use lula.Prelude.Texts.{is_blank}
use lula.Prelude.Members.{contains}
use lula.Routing.Decide.{
  RouteRequest, remote, uses_local, is_fallback, is_quick, lane_of, or_default, route, decided,
  route_lanes, decide_model_route,
}

-- Where the primary provider is not the local one, a request with compression pressure or with
-- facts goes to the remote provider.
pub route-remote :
    (r : RouteRequest)
    → uses_local r ≡ false
    → (0 < r.compression_pressure) ⊎ (0 < r.fact_count)
    → (route r).provider_used ≡ remote
unfolding route is_fallback is_quick
route-remote r u h = ground arith

-- A request that goes to the remote provider still does with more context, more compression
-- pressure and more facts.
pub route-more :
    (r : RouteRequest) (tokens pressure facts : ℕ)
    → r.context_tokens ≤ tokens
    → r.compression_pressure ≤ pressure
    → r.fact_count ≤ facts
    → (route r).provider_used ≡ remote
    → (route (record r {
      context_tokens = tokens;
      compression_pressure = pressure;
      fact_count = facts;
    })).provider_used
      ≡ remote
unfolding route uses_local is_fallback is_quick
route-more r tokens pressure facts t p f h = ground arith

route-lane :
    (r : RouteRequest)
    → ((route r).lane ≡ or_default (lane_of r.lane) "interactive")
      ⊎ ((route r).lane ≡ or_default (lane_of r.lane) "deep_planning")
      ⊎ ((route r).lane ≡ "recovery")
      ⊎ ((route r).lane ≡ "interactive")
unfolding route decided
route-lane r = ground arith

or_default-contains :
    (s default : String)
    → (is_blank s ≡ true) ⊎ (contains s route_lanes ≡ true)
    → contains default route_lanes ≡ true
    → contains (or_default s default) route_lanes ≡ true
unfolding or_default
or_default-contains s default h d = ground arith

lanes :
    (contains "interactive" route_lanes ≡ true)
    × (contains "deep_planning" route_lanes ≡ true)
    × (contains "recovery" route_lanes ≡ true)
unfolding contains
lanes = (refl, refl, refl)

-- A request without a lane, with a blank one or with one of the three lanes gets a decision.
pub decide-total :
    (r : RouteRequest)
    → (is_blank (lane_of r.lane) ≡ true) ⊎ (contains (lane_of r.lane) route_lanes ≡ true)
    → decide_model_route r ≡ some (route r)
unfolding decide_model_route
decide-total r h =
    let known : contains (route r).lane route_lanes ≡ true = elim (route-lane r) [
      | inl e ↦ rw e (or_default-contains (lane_of r.lane) "interactive" h lanes.0)
      | inr (inl e) ↦ rw e (or_default-contains (lane_of r.lane) "deep_planning" h lanes.1)
      | inr (inr (inl e)) ↦ rw e lanes.2
      | inr (inr (inr e)) ↦ rw e lanes.0
    ] in
    rw known refl
