-- ===== src/Policy/Rules/First.antt =====
-- The loop over the rules (src/clawops/policy_engine.py) against a description without a loop
-- state: the rules that match, cut after the first one that decides.
use strongclaw.Prelude.{
  ℕ, suc, String, ◌≡◌, refl, sym, ap, ◌∙◌, true, Option, none, some, List, [], ◌∷◌, ◌++◌, map,
  length, length-append, if◌then◌else◌, Bool-cases, Option-cases, inl, inr, arith,
}
use mathlib.Core.List.{append-nil, append_assoc}
use strongclaw.Value.{Value, Items, nil, cons, Fields}
use strongclaw.Runtime.{Runtime}
use strongclaw.Policy.Access.{mapping_or_none}
use strongclaw.Policy.Rules.{Matched, Sweep, is_decisive, try_rule, sweep}

-- The rules up to the first decisive one, itself included.
pub cut : List Matched → List Matched
cut [] = []
cut (m ∷ ms) = if is_decisive m.outcome then m ∷ [] else m ∷ cut ms

-- The first decisive rule.
pub first_decisive : List Matched → Option Matched
first_decisive [] = none
first_decisive (m ∷ ms) = if is_decisive m.outcome then some m else first_decisive ms

abbrev pub notes : List Matched → List String
notes = map (λ m. m.note)

abbrev pub ids : List Matched → List String
ids = map (λ m. m.rule_id)

module _ (rt : Runtime) (default_decision : Value) (payload : Fields) where
  -- Every rule that matches, in order; a rule without an id is numbered by its place among them.
  pub all_matched : ℕ → Items → List Matched
  all_matched count nil = []
  all_matched count (cons raw_rule rules) =
      elim (try_rule rt default_decision payload count (mapping_or_none (some raw_rule))) [
        | none ↦ all_matched count rules
        | some m ↦ m ∷ all_matched (suc count) rules
      ]

  -- The loop collects the notes and ids of the matching rules up to the first that denies or asks for
  -- approval, and returns that one.
  pub sweep-eq-cut :
      (rules : Items) (reasons matched_rules : List String)
      → sweep rt default_decision payload rules reasons matched_rules ≡ record {
        reasons = reasons ++ notes (cut (all_matched (length matched_rules) rules));
        matched_rules = matched_rules ++ ids (cut (all_matched (length matched_rules) rules));
        decided = first_decisive (all_matched (length matched_rules) rules);
      }
  unfolding sweep all_matched cut first_decisive
  sweep-eq-cut nil reasons matched_rules = rw (append-nil reasons, append-nil matched_rules)
  sweep-eq-cut (cons raw_rule rules) reasons matched_rules =
      elim (Option-cases (
        try_rule rt default_decision payload (length matched_rules)
          (mapping_or_none (some raw_rule)))) [
            | inl e ↦ rw (e, sweep, all_matched) (sweep-eq-cut rules reasons matched_rules)
            | inr (m, e) ↦ elim (Bool-cases (is_decisive m.outcome)) [
              | inl d ↦ rw (e, sweep, all_matched, d) refl
              | inr d ↦
                  (let longer : length (matched_rules ++ m.rule_id ∷ [])
                        ≡ suc (length matched_rules) =
                      omega (arith, length-append matched_rules (m.rule_id ∷ [])) in
                    rw (e, sweep, all_matched, d)
                      (sweep-eq-cut rules (reasons ++ m.note ∷ []) (matched_rules ++ m.rule_id ∷ [])
                        ∙ simp (longer, append_assoc)))
            ]
          ]

  first_decisive-is_decisive :
      (ms : List Matched) (m : Matched) → first_decisive ms ≡ some m → is_decisive m.outcome ≡ true
  unfolding first_decisive
  first_decisive-is_decisive [] m h = absurd (cc)
  first_decisive-is_decisive (x ∷ ms) m h = elim (Bool-cases (is_decisive x.outcome)) [
    | inl e ↦
        (let same : some x ≡ some m = rw e at h in
          let eq : x ≡ m = cc in ap (λ (t : Matched). is_decisive t.outcome) (sym eq) ∙ e)
    | inr e ↦ first_decisive-is_decisive ms m (rw e at h)
  ]

  -- A rule that ends the loop denies or asks for approval.
  pub decided-is_decisive :
      (rules : Items) (reasons matched_rules : List String) (m : Matched)
      → (sweep rt default_decision payload rules reasons matched_rules).decided ≡ some m
      → is_decisive m.outcome ≡ true
  decided-is_decisive rules reasons matched_rules m h =
      first_decisive-is_decisive (all_matched (length matched_rules) rules) m
        (ap (λ (s : Sweep). s.decided) (sym (sweep-eq-cut rules reasons matched_rules)) ∙ h)
