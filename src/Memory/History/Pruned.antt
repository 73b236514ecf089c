-- ===== src/Memory/History/Pruned.antt =====
-- What pruning leaves of a history.
use Prim.Native.String.{[] as ε, ◌∷◌ as ◌▸◌}
use lula.Prelude.{
  ℕ, suc, ◌-◌, ◌≡◌, refl, ap, sym, ◌∙◌, String, Bool, true, false, ◌&&◌, Option, none, some, List,
  [], ◌∷◌, arith, leb, length, any, last_n, drop, Bool-cases, inl, inr,
}
use mathlib.Core.List.{append-nil}
use lula.Prelude.Texts.{append}
use lula.Memory.Fit.{char_count}
use lula.Memory.History.{
  ToolResult, HistoryState, prune_pre_verification_history, starts_with, pruned_prefix,
  evicted_text, compact, note, is_applied, prune_loop, prune_results,
  prune_post_verification_history,
}

starts_with-append : (p s : String) → starts_with (append p s) p ≡ true
unfolding starts_with append
starts_with-append ε s = refl
starts_with-append (c ▸ p) s = ground (arith, starts_with-append p s)

module _ (digest : String → String) (number : ℕ → String) where
  -- A result that was pruned is not pruned again.
  evicted_text-compact :
      (threshold : ℕ) (r : ToolResult) (t : Option String)
      → evicted_text threshold r ≡ t
      → evicted_text threshold (compact digest number r t) ≡ none
  unfolding compact
  evicted_text-compact threshold r none e = e
  evicted_text-compact threshold r (some s) e =
      unfold evicted_text in
      ground (
        arith,
        starts_with-append pruned_prefix
            (append " chars=" (append (number (char_count s)) (append " sha256=" (digest s)))),
      )

  prune_loop-again :
      (threshold i j : ℕ) (rs : List ToolResult)
      → let done = (prune_loop digest number threshold i rs).0 in
        prune_loop digest number threshold j done ≡ (done, [])
  unfolding prune_loop
  prune_loop-again threshold i j [] = refl
  prune_loop-again threshold i j (r ∷ rs) =
      let once = evicted_text-compact threshold r (evicted_text threshold r) refl in
      rw (once, prune_loop-again threshold (suc i) (suc j) rs) (unfold compact note in refl)

  is_applied-compact :
      (r : ToolResult) (t : Option String) → is_applied (compact digest number r t) ≡ is_applied r
  unfolding is_applied compact
  is_applied-compact r none = refl
  is_applied-compact r (some s) = refl

  any-prune_loop :
      (threshold i : ℕ) (rs : List ToolResult)
      → any is_applied (prune_loop digest number threshold i rs).0 ≡ any is_applied rs
  unfolding prune_loop any
  any-prune_loop threshold i [] = refl
  any-prune_loop threshold i (r ∷ rs) =
      rw (is_applied-compact r (evicted_text threshold r), any-prune_loop threshold (suc i) rs) refl

  applies : HistoryState → Bool
  applies s = s.verified && any is_applied s.tool_results

  prune_post-true :
      (s : HistoryState)
      → applies s ≡ true
      → prune_post_verification_history digest number s ≡ prune_results digest number s
  unfolding prune_post_verification_history applies
  prune_post-true s e = rw e refl

  prune_post-false :
      (s : HistoryState) → applies s ≡ false → prune_post_verification_history digest number s ≡ s
  unfolding prune_post_verification_history applies
  prune_post-false s e = rw e refl

  applies-prune_results : (s : HistoryState) → applies (prune_results digest number s) ≡ applies s
  unfolding applies prune_results
  applies-prune_results s =
      rw (any-prune_loop s.policy.read_file_prune_threshold_chars 0 s.tool_results) refl

  prune_results-again :
      (s : HistoryState)
      → prune_results digest number (prune_results digest number s) ≡ prune_results digest number s
  unfolding prune_results
  prune_results-again s =
      rw (prune_loop-again s.policy.read_file_prune_threshold_chars 0 0 s.tool_results)
        (ap (λ l. record (prune_results digest number s) { provenance = l }) (append-nil _))

  -- Pruning a history after verification a second time changes nothing: what was evicted stays, and
  -- no event is added.
  pub prune_post_idempotent :
      (s : HistoryState)
      → prune_post_verification_history digest number
          (prune_post_verification_history digest number s)
        ≡ prune_post_verification_history digest number s
  prune_post_idempotent s = elim (Bool-cases (applies s)) [
    | inl e ↦
        let once = prune_post-true s e in
        ap (prune_post_verification_history digest number) once
        ∙ prune_post-true (prune_results digest number s) (applies-prune_results s ∙ e)
        ∙ prune_results-again s
        ∙ sym once
    | inr e ↦ ap (prune_post_verification_history digest number) (prune_post-false s e)
  ]

-- Pruning before verification leaves the last results, as many as the policy retains.
pub prune_pre_lem :
    (s : HistoryState)
    → (prune_pre_verification_history s).tool_results
      ≡ last_n s.policy.retain_recent_tool_results s.tool_results
unfolding prune_pre_verification_history
prune_pre_lem s =
    elim (Bool-cases (leb (length s.tool_results) s.policy.retain_recent_tool_results)) [
      | inl e ↦
          let none_cut : 0 ≡ length s.tool_results - s.policy.retain_recent_tool_results =
            ground (arith, e) in
          rw e (ap (λ k. drop k s.tool_results) none_cut)
      | inr e ↦ rw e refl
    ]
