-- ===== src/Executor/Sent.antt =====
-- What reaches the runner.
use lula.Prelude.{◌≡◌, ◌⊎◌, false, List, [], ◌∷◌, str_eq}
use lula.Executor.{ToolCall, Env, Checked, accepted, denied}
use lula.Executor.Granted.{MayPatch}

-- A call that is sent is a planned one, as it is or, for apply_patch, with a token.
pub record MaySend (env : Env) (Planned : ToolCall → Type 0) (c : ToolCall) : Type 0 where
  pub planned : ToolCall
  pub is_planned : Planned planned
  pub same_tool : c.tool ≡ planned.tool
  pub fit :
      ((str_eq c.tool "apply_patch" ≡ false) × (c.input ≡ planned.input))
      ⊎ MayPatch env planned.input c.input

module _ (env : Env) (Planned : ToolCall → Type 0) where
  abbrev pub MayAll : List ToolCall → Type 0
  MayAll [] = Unit {0}
  MayAll (c ∷ cs) = MaySend env Planned c × MayAll cs

  -- What check_call says of a planned call.
  CallAllowed : ToolCall → Checked → Type 0
  CallAllowed c (accepted input) = MaySend env Planned (record { tool = c.tool; input = input })
  CallAllowed c (denied tag) = Unit {0}

  abbrev pub AllPlanned : List ToolCall → Type 0
  AllPlanned [] = Unit {0}
  AllPlanned (c ∷ cs) = Planned c × AllPlanned cs

  abbrev pub SentAll : List (List ToolCall) → Type 0
  SentAll [] = Unit {0}
  SentAll (b ∷ bs) = MayAll b × SentAll bs

  abbrev AllSteps : List (List ToolCall) → Type 0
  AllSteps [] = Unit {0}
  AllSteps (tools ∷ steps) = AllPlanned tools × AllSteps steps

abbrev In : ToolCall → List ToolCall → Type 0
In c [] = ⊥
In c (d ∷ ds) = (c ≡ d) ⊎ In c ds

-- The call is one of the tools of a step.
abbrev pub IsPlanned : List (List ToolCall) → ToolCall → Type 0
IsPlanned [] c = ⊥
IsPlanned (tools ∷ steps) c = In c tools ⊎ IsPlanned steps c
