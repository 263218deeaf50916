-- ===== src/Controller/Matching.antt =====
-- Which rule decides about a tool.
use athena_flow_cli.Common.{
  String, ◌≡◌, refl, Option, none, some, List, [], ◌∷◌, string_eq, Bool, true, false, ◌&&◌, find,
  All, Bool-cases, inl, inr, ◌⊎◌,
}
use athena_flow_cli.Controller.{HookRule, is_deny, is_approve, match_rule, or_find, rule_matches}

-- A rule is among the rules, and every rule before it fails the test.
abbrev pub First : (HookRule → Bool) → HookRule → List HookRule → Type 0
First p r [] = ⊥
First p r (x ∷ xs) = ((p x ≡ true) × (x ≡ r)) ⊎ ((p x ≡ false) × First p r xs)

-- No rule passes the test.
abbrev pub Nowhere : (HookRule → Bool) → List HookRule → Type 0
Nowhere p rules = All (λ x. p x ≡ false) rules

abbrev pub denies : String → HookRule → Bool
denies tool r = is_deny r && rule_matches r.tool_name tool

abbrev pub approves : String → HookRule → Bool
approves tool r = is_approve r && rule_matches r.tool_name tool

-- The verdict of a list of rules on a tool.
abbrev pub Decides : List HookRule → String → Option HookRule → Type 0
Decides rules tool none = Nowhere (denies tool) rules × Nowhere (approves tool) rules
Decides rules tool (some r) =
    First (denies tool) r rules ⊎ (Nowhere (denies tool) rules × First (approves tool) r rules)

abbrev pub Finds : (HookRule → Bool) → List HookRule → Option HookRule → Type 0
Finds p rules none = Nowhere p rules
Finds p rules (some r) = First p r rules

find-Finds : (p : HookRule → Bool) (rules : List HookRule) → Finds p rules (find p rules)
find-Finds p [] = tt
find-Finds p (x ∷ xs) = elim (Bool-cases (p x)) [
  | inl e ↦ rw e (inl (e, refl))
  | inr e ↦ rw e (extend x xs (find p xs) e (find-Finds p xs))
]
  where
    extend :
        (x : HookRule) (xs : List HookRule) (o : Option HookRule)
        → p x ≡ false
        → Finds p xs o
        → Finds p (x ∷ xs) o
    extend x xs none e h = (e, h)
    extend x xs (some r) e h = inr (e, h)

or_find-Decides :
    (rules : List HookRule) (tool : String) (d a : Option HookRule)
    → Finds (denies tool) rules d
    → Finds (approves tool) rules a
    → Decides rules tool (or_find d a)
unfolding or_find
or_find-Decides rules tool (some r) a h h' = inl h
or_find-Decides rules tool none none h h' = (h, h')
or_find-Decides rules tool none (some r) h h' = inr (h, h')

-- `match_rule` gives the first deny rule that matches the tool; when no deny rule matches, the first
-- approve rule that does; and nothing only when no rule matches.
pub match_rule-Decides :
    (rules : List HookRule) (tool : String) → Decides rules tool (match_rule rules tool)
unfolding match_rule
match_rule-Decides rules tool =
    or_find-Decides rules tool _ _ (find-Finds (denies tool) rules)
      (find-Finds (approves tool) rules)
