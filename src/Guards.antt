-- ===== src/Guards.antt =====
-- decide_policy (py/src/lg_orch/policy.py) and the guards that the node policy_gate
-- (py/src/lg_orch/nodes/policy_gate.py) writes with it.
pub mod Closed
mod Examples
use Prim.Native.Char.{code}
use Prim.Native.String.{[] as ε, ◌∷◌ as ◌▸◌}
use lula.Prelude.{
  ℕ, String, Bool, true, false, not, ◌&&◌, ◌||◌, Option, none, some, List, [], ◌∷◌, str_eq, ◌==◌,
  if◌then◌else◌, keep, map,
}
use lula.Prelude.Texts.{strip, is_blank, strip_parts}

pub record PolicyDecision : Type 0 where
  pub allow_network : Bool
  pub require_approval_for_mutations : Bool
  pub allowed_write_paths : List String

-- text.lower() == word, for a word of which each letter has the two character codes given: no other
-- character becomes one of the letters of "allow" in lower case.
is_word : List (ℕ × ℕ) → String → Bool
is_word [] ε = true
is_word [] (c ▸ s) = false
is_word (l ∷ ls) ε = false
is_word ((upper, lower) ∷ ls) (c ▸ s) = (code c == upper || code c == lower) && is_word ls s

abbrev allow_letters : List (ℕ × ℕ)
allow_letters = (65, 97) ∷ (76, 108) ∷ (76, 108) ∷ (79, 111) ∷ (87, 119) ∷ []

stripped_paths : List String → List String
stripped_paths paths = map strip (keep (λ p. not (is_blank (strip p))) paths)

pub decide_policy : String → Bool → List String → PolicyDecision
unfolding is_word stripped_paths
decide_policy network_default require_approval_for_mutations allowed_write_paths = record {
  allow_network = is_word allow_letters (strip network_default);
  require_approval_for_mutations = require_approval_for_mutations;
  allowed_write_paths = stripped_paths allowed_write_paths;
}

-- `_config_policy`, as the gate reads it: the text of network_default and the entries of
-- allowed_write_paths that are texts.
pub record PolicyConfig : Type 0 where
  pub network_default : String
  pub require_approval : Bool
  pub allowed_write_paths : List String

-- network_default if it is "allow" or "deny", and "deny" otherwise.
known_default : String → String
known_default network = if str_eq network "allow" || str_eq network "deny" then network else "deny"

-- The guards; `none` stands for a configuration that raises when it is read.
pub gate_guards : Option PolicyConfig → PolicyDecision
unfolding known_default
gate_guards none = record {
  allow_network = false;
  require_approval_for_mutations = true;
  allowed_write_paths = [];
}
gate_guards (some c) =
    decide_policy (known_default c.network_default) c.require_approval
      (map strip c.allowed_write_paths)

-- What a decision on concrete input computes with.
unfoldable pub guards_parts : Unit {0}
unfolding strip_parts is_word stripped_paths decide_policy known_default gate_guards keep
guards_parts = tt
