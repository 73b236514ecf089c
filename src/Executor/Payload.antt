-- ===== src/Executor/Payload.antt =====
-- What the executor reads of a planned tool call: the size of a patch, the paths that it changes, and
-- the approval that goes with it (py/src/lg_orch/nodes/executor.py). A field of an input that the
-- code reads is a field here, and an entry of the wrong type counts as its absence.
use Prim.Native.Char.{code}
use Prim.Native.String.{[] as ε, ◌∷◌ as ◌▸◌, len}
use lula.Prelude.{
  ℕ, zero, suc, ◌+◌, String, Bool, true, false, not, Option, none, some, List, [], ◌∷◌, ◌==◌,
  if◌then◌else◌, keep, map, any,
}
use lula.Prelude.Texts.{strip, is_blank, append}
use lula.Prelude.Dicts.{get}
use lula.Tokens.{RawToken, ApprovalToken, coerce_approval_token, tokens_parts}

-- An entry of `changes`.
pub data Change : Type 0 where
  not_dict : Change
  change : (path content patch : Option String) → Change

-- `none` where `changes` is no list.
pub record ToolInput : Type 0 where
  pub patch : Option String
  pub changes : Option (List Change)
  pub approval : RawToken

abbrev byte_size : Option String → ℕ
byte_size none = 0
byte_size (some s) = len s

pub changes_size : List Change → ℕ
changes_size [] = 0
changes_size (not_dict ∷ rest) = changes_size rest
changes_size (change path content patch ∷ rest) =
    byte_size content + byte_size patch + changes_size rest

or_json : ℕ → ℕ → ℕ
or_json zero json = json
or_json (suc n) json = suc n

changes_or_json : Option (List Change) → ℕ → ℕ
changes_or_json none json = json
changes_or_json (some changes) json = or_json (changes_size changes) json

-- The size of the patch, or of its changes, or of the whole input as JSON, which is the last argument.
pub estimate_patch_bytes : ToolInput → ℕ → ℕ
unfolding changes_or_json or_json
estimate_patch_bytes input json = elim input.patch [
  | some s ↦ len s
  | none ↦ changes_or_json input.changes json
]

-- s.replace("\\", "/")
pub to_slashes : String → String
to_slashes ε = ε
to_slashes (c ▸ s) = let rest = to_slashes s in if code c == 92 then append "/" rest else c ▸ rest

pub normalize_rel_path : String → String
normalize_rel_path path = to_slashes (strip path)

pub configured_write_allowlist : List String → List String
configured_write_allowlist raw = map normalize_rel_path (keep (λ e. not (is_blank (strip e))) raw)

path_cons : Option String → Option (List String) → Option (List String)
path_cons none rest = none
path_cons (some path) none = none
path_cons (some path) (some rest) =
    if is_blank (strip path) then none else some (normalize_rel_path path ∷ rest)

pub paths_of : List Change → Option (List String)
unfolding path_cons
paths_of [] = some []
paths_of (not_dict ∷ rest) = none
paths_of (change path content patch ∷ rest) = path_cons path (paths_of rest)

changed_or_none : Option (List Change) → Option (List String)
changed_or_none none = none
changed_or_none (some []) = none
changed_or_none (some (c ∷ cs)) = paths_of (c ∷ cs)

pub apply_patch_changed_paths : ToolInput → Option (List String)
unfolding changed_or_none
apply_patch_changed_paths input = changed_or_none input.changes

-- `fnmatch.fnmatch` is the first argument.
pub path_matches_allowlist : (String → String → Bool) → String → List String → Bool
path_matches_allowlist fnmatch path allowed = any (fnmatch (normalize_rel_path path)) allowed

-- `approvals` or `_resume_approvals` of the state: tokens by tool, and those under the key "mutations",
-- where there is such a key; an entry under it that is no dict holds none.
pub record Approvals : Type 0 where
  pub by_tool : List (String × RawToken)
  pub mutations : Option (List (String × RawToken))

pub no_approvals : Approvals → Bool
no_approvals a = elim a.by_tool [
  | [] ↦ elim a.mutations [ none ↦ true | some m ↦ false ]
  | t ∷ ts ↦ false
]

unfoldable pub token_at : String → List (String × RawToken) → Option ApprovalToken
token_at tool tokens = elim (get tool tokens) [ none ↦ none | some raw ↦ coerce_approval_token raw ]

unfoldable pub nested_at : String → Option (List (String × RawToken)) → Option ApprovalToken
nested_at tool none = none
nested_at tool (some tokens) = token_at tool tokens

unfoldable pub or_token : Option ApprovalToken → Option ApprovalToken → Option ApprovalToken
or_token (some t) other = some t
or_token none other = other

unfoldable pub approval_for_tool : Approvals → Approvals → String → ToolInput → Option ApprovalToken
unfolding token_at nested_at or_token
approval_for_tool approvals resumed tool input =
    let given = if no_approvals approvals then resumed else approvals in
    or_token (coerce_approval_token input.approval)
      (or_token (token_at tool given.by_tool) (nested_at tool given.mutations))

-- What reading a concrete input computes with.
unfoldable pub payload_parts : Unit {0}
unfolding tokens_parts get keep any changes_size or_json changes_or_json estimate_patch_bytes
    to_slashes normalize_rel_path configured_write_allowlist path_cons paths_of changed_or_none
    apply_patch_changed_paths path_matches_allowlist no_approvals token_at nested_at or_token
    approval_for_tool append
payload_parts = tt
