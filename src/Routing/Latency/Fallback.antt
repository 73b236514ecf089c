-- ===== src/Routing/Latency/Fallback.antt =====
-- Which model a latency policy selects.
use lula.Prelude.{
  ◌≡◌, ◌≢◌, refl, String, true, Option, none, some, List, [], ◌∷◌, arith, str_eq, eq_iff,
  str_eq_self, Bool-cases, inl, inr,
}
use lula.Prelude.Members.{contains}
use lula.Prelude.Dicts.{get}
use lula.Routing.Latency.{
  LatencyWindow, SlaRoutingPolicy, p95, is_slow, slow_ids, or_requested, choose, select_model,
  degraded_models,
}

module _ (p : SlaRoutingPolicy) where
  contains-slow_ids :
      (m : String) (w : LatencyWindow) (ws : List (String × LatencyWindow))
      → get m ws ≡ some w
      → is_slow (p95 w) (get m p.thresholds) ≡ true
      → contains m (slow_ids p ws) ≡ true
  unfolding get slow_ids contains
  contains-slow_ids m w [] g s = cc
  contains-slow_ids m w ((k, v) ∷ ws) g s = elim (Bool-cases (str_eq k m)) [
    | inl e ↦
        let same : k ≡ m = (eq_iff k m).0 e in
        let found : v ≡ w = ground arith in rw (same, found, s) (ground (arith, str_eq_self m))
    | inr e ↦ ground (arith, contains-slow_ids m w ws (ground arith) s)
  ]

  -- Another model than the one requested is selected only if the requested one is among the degraded
  -- models, and the one selected is its fallback.
  pub select_model-degraded :
      (requested chosen : String)
      → select_model p requested ≡ chosen
      → chosen ≢ requested
      → (contains requested (degraded_models p) ≡ true) × (get requested p.fallbacks ≡ some chosen)
  unfolding select_model degraded_models choose or_requested
  select_model-degraded requested chosen e d = go (get requested p.windows) refl e
    where
      go :
          (r : Option LatencyWindow)
          → get requested p.windows ≡ r
          → choose p requested r ≡ chosen
          → (contains requested (slow_ids p p.windows) ≡ true)
            × (get requested p.fallbacks ≡ some chosen)
      go none g c = absurd (d (ground arith))
      go (some w) g c = ground (arith, contains-slow_ids requested w p.windows g)
