-- ===== src/Value.antt =====
-- The dynamic values that pass through the program (parsed JSON and YAML), and the parts of
-- src/clawops/common.py and src/clawops/policy_engine.py that read them. Numbers with a fraction
-- are not modelled.
pub mod Access
pub mod Matching
pub mod Sorted
use strongclaw.Prelude.{
  ℕ, String, Bool, true, false, ◌&&◌, Option, none, some, ◌==◌, eqb, if◌then◌else◌,
}

-- `nat n` is the integer n, `neg n` is -(n + 1).
mutual
  -- a dictionary, by its entries in order
  pub data Fields : Type 0 where
    field : String → Value → Fields → Fields
    end : Fields

  -- a sequence
  pub data Items : Type 0 where
    cons : Value → Items → Items
    nil : Items

  pub data Value : Type 0 where
    str : String → Value
    obj : Fields → Value
    arr : Items → Value
    nat neg : ℕ → Value
    bool : Bool → Value
    null : Value
