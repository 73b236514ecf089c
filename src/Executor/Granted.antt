-- ===== src/Executor/Granted.antt =====
-- What the guards of a planned call ask of it.
use lula.Prelude.{
  ◌≤◌, ◌≡◌, ◌≢◌, ◌⊎◌, refl, String, true, false, Option, none, some, List, [], ◌∷◌, arith, ltb,
  Bool-cases, if_cases, if◌then◌else◌, ◌∙◌, inl, inr,
}
use lula.Prelude.Dicts.{get}
use lula.Tokens.{RawToken, ApprovalToken, coerce_approval_token}
use lula.Executor.Payload.{
  ToolInput, Approvals, no_approvals, token_at, nested_at, or_token, approval_for_tool,
  estimate_patch_bytes, apply_patch_changed_paths,
}
use lula.Executor.{
  Env, Checked, accepted, denied, check_patch, check_approved, check_paths, check_changed,
  check_size, all_match, with_approval,
}

-- The changed paths are known, there is one, and all match.
abbrev pub PathsMatch : Env → Option (List String) → Type 0
PathsMatch env none = ⊥
PathsMatch env (some paths) = (paths ≢ []) × (all_match env paths ≡ true)

-- The approvals that count: those of the state, or else those of the resumption.
abbrev pub given : Env → Approvals
given env = if no_approvals env.approvals then env.resumed else env.approvals

-- The token stands in the planned call, or in the given approvals under "apply_patch", on their own
-- level or under "mutations".
pub data Held (env : Env) (planned : ToolInput) (t : ApprovalToken) : Type 0 where
  in_call : coerce_approval_token planned.approval ≡ some t → Held env planned t
  by_tool :
      (raw : RawToken)
      → get "apply_patch" (given env).by_tool ≡ some raw
      → coerce_approval_token raw ≡ some t
      → Held env planned t
  by_mutations :
      (m : List (String × RawToken)) (raw : RawToken)
      → (given env).mutations ≡ some m
      → get "apply_patch" m ≡ some raw
      → coerce_approval_token raw ≡ some t
      → Held env planned t

-- What the policy asks of an input of apply_patch, made of the planned one by giving it a token.
pub record MayPatch (env : Env) (planned input : ToolInput) : Type 0 where
  pub token : ApprovalToken
  pub given_token : input ≡ with_approval planned token
  pub approved : (env.require_approval ≡ false) ⊎ Held env planned token
  pub allowed : (env.allowed_write_paths ≡ []) ⊎ PathsMatch env (apply_patch_changed_paths input)
  pub fits :
      (env.max_patch_bytes ≡ 0)
      ⊎ (estimate_patch_bytes input (env.json_size input) ≤ env.max_patch_bytes)

abbrev pub Allowed : Env → ToolInput → Checked → Type 0
Allowed env planned (accepted input) = MayPatch env planned input
Allowed env planned (denied tag) = Unit {0}

token_at-Held :
    (tokens : List (String × RawToken)) (t : ApprovalToken)
    → token_at "apply_patch" tokens ≡ some t
    → (raw : RawToken) × (get "apply_patch" tokens ≡ some raw)
      × (coerce_approval_token raw ≡ some t)
unfolding token_at
token_at-Held tokens t e = at (get "apply_patch" tokens) refl e
  where
    at :
        (r : Option RawToken)
        → get "apply_patch" tokens ≡ r
        → elim r [ none ↦ none | some raw ↦ coerce_approval_token raw ] ≡ some t
        → (raw : RawToken) × (get "apply_patch" tokens ≡ some raw)
          × (coerce_approval_token raw ≡ some t)
    at none g f = ground (arith, f)
    at (some raw) g f = (raw, g, f)

approval_for_tool-Held :
    (env : Env) (planned : ToolInput) (t : ApprovalToken)
    → approval_for_tool env.approvals env.resumed "apply_patch" planned ≡ some t
    → Held env planned t
unfolding approval_for_tool or_token nested_at
approval_for_tool-Held env planned t = first (coerce_approval_token planned.approval) refl
  where
    nested :
        (m : Option (List (String × RawToken)))
        → (given env).mutations ≡ m
        → nested_at "apply_patch" m ≡ some t
        → Held env planned t
    nested none g e = ground (arith, e)
    nested (some m) g e = let (raw, h, k) = token_at-Held m t e in by_mutations m raw g h k

    second :
        (r : Option ApprovalToken)
        → token_at "apply_patch" (given env).by_tool ≡ r
        → or_token r (nested_at "apply_patch" (given env).mutations) ≡ some t
        → Held env planned t
    second (some u) q e =
        let (raw, h, k) = token_at-Held (given env).by_tool t (q ∙ e) in by_tool raw h k
    second none q e = nested (given env).mutations refl e

    first :
        (r : Option ApprovalToken)
        → coerce_approval_token planned.approval ≡ r
        → or_token r (
            or_token
              (token_at "apply_patch" (given env).by_tool)
              (nested_at "apply_patch" (given env).mutations))
          ≡ some t
        → Held env planned t
    first (some u) q e = in_call (q ∙ e)
    first none q e = second (token_at "apply_patch" (given env).by_tool) refl e

module _ (env : Env) (planned : ToolInput) where
  Approved : ToolInput → Type 0
  Approved input =
      (t : ApprovalToken) × (input ≡ with_approval planned t)
      × ((env.require_approval ≡ false) ⊎ Held env planned t)

  check_size-Allowed :
      (input : ToolInput)
      → Approved input
      → (env.allowed_write_paths ≡ []) ⊎ PathsMatch env (apply_patch_changed_paths input)
      → Allowed env planned (check_size env input)
  unfolding check_size Approved
  check_size-Allowed input a p = elim (Bool-cases (ltb 0 env.max_patch_bytes)) [
    | inr e ↦ rw e (record {
      token = a.0;
      given_token = a.1;
      approved = a.2;
      allowed = p;
      fits = inl (ground (arith, e));
    })
    | inl e ↦
        elim (Bool-cases
          (ltb env.max_patch_bytes (estimate_patch_bytes input (env.json_size input)))) [
            | inl f ↦ rw (e, f) tt
            | inr f ↦
                rw (e, f)
                  (record {
                    token = a.0;
                    given_token = a.1;
                    approved = a.2;
                    allowed = p;
                    fits = inr (ground (arith, f));
                  })
          ]
  ]

  check_changed-Allowed :
      (input : ToolInput) (r : Option (List String))
      → apply_patch_changed_paths input ≡ r
      → Approved input
      → Allowed env planned (check_changed env input r)
  unfolding check_changed
  check_changed-Allowed input none e a = tt
  check_changed-Allowed input (some []) e a = tt
  check_changed-Allowed input (some (p ∷ ps)) e a = elim (Bool-cases (all_match env (p ∷ ps))) [
    | inr f ↦ rw f tt
    | inl f ↦ rw f (check_size-Allowed input a (inr (rw e ((λ n. cc), f))))
  ]

  check_paths-Allowed :
      (input : ToolInput) (allowed : List String)
      → env.allowed_write_paths ≡ allowed
      → Approved input
      → Allowed env planned (check_paths env input allowed)
  unfolding check_paths
  check_paths-Allowed input [] e a = check_size-Allowed input a (inl e)
  check_paths-Allowed input (x ∷ xs) e a =
      check_changed-Allowed input (apply_patch_changed_paths input) refl a

  check_approved-Allowed :
      (r : Option ApprovalToken)
      → ((t : ApprovalToken) → r ≡ some t → (env.require_approval ≡ false) ⊎ Held env planned t)
      → Allowed env planned (check_approved env planned r)
  unfolding check_approved Approved
  check_approved-Allowed none h = tt
  check_approved-Allowed (some t) h =
      check_paths-Allowed (with_approval planned t) env.allowed_write_paths refl (t, refl, h t refl)

  pub check_patch-Allowed : Allowed env planned (check_patch env planned)
  unfolding check_patch
  check_patch-Allowed = check_approved-Allowed _ (λ t.
      if_cases
        (λ (o : Option ApprovalToken).
          o ≡ some t → (env.require_approval ≡ false) ⊎ Held env planned t)
        env.require_approval (λ q e. inr (approval_for_tool-Held env planned t e)) (λ q e. inl q))
