-- ===== src/Guards/Closed.antt =====
-- When the gate allows the network.
use lula.Prelude.{
  String, ◌≡◌, refl, Bool, true, false, Option, none, some, List, str_eq, eq_iff, Bool-cases, inl,
  inr,
}
use lula.Guards.{PolicyConfig, decide_policy, known_default, gate_guards, guards_parts}

abbrev pub says_allow : Option PolicyConfig → Bool
says_allow none = false
says_allow (some c) = str_eq c.network_default "allow"

decide_policy-allow :
    (require : Bool) (paths : List String)
    → (decide_policy "allow" require paths).allow_network ≡ true
unfolding guards_parts
decide_policy-allow require paths = refl

decide_policy-deny :
    (require : Bool) (paths : List String)
    → (decide_policy "deny" require paths).allow_network ≡ false
unfolding guards_parts
decide_policy-deny require paths = refl

-- The gate allows the network exactly if the configuration can be read and its network_default is
-- "allow", letter by letter: any other text, and any error, denies it.
pub gate_guards-allow : (c : Option PolicyConfig) → (gate_guards c).allow_network ≡ says_allow c
unfolding gate_guards known_default
gate_guards-allow none = refl
gate_guards-allow (some c) = elim (Bool-cases (str_eq c.network_default "allow")) [
  | inl e ↦ rw ((eq_iff c.network_default "allow").0 e) (decide_policy-allow _ _)
  | inr e ↦ elim (Bool-cases (str_eq c.network_default "deny")) [
    | inl f ↦ rw ((eq_iff c.network_default "deny").0 f) (decide_policy-deny _ _)
    | inr f ↦ rw (e, f) (decide_policy-deny _ _)
  ]
]
