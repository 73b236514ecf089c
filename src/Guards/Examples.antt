-- ===== src/Guards/Examples.antt =====
-- The guards of one configuration.
use lula.Prelude.{◌≡◌, some, true, false, [], ◌∷◌}
use lula.Guards.{PolicyConfig, gate_guards}
use lula.Guards.Closed.{gate_guards-allow}

abbrev shouted : PolicyConfig
shouted = record {
  network_default = "ALLOW";
  require_approval = true;
  allowed_write_paths = "src" ∷ [];
}

gate_guards-allow_example : (gate_guards (some shouted)).allow_network ≡ false
gate_guards-allow_example = gate_guards-allow (some shouted)
