-- ===== src/Verifier/Plans.antt =====
-- The plan of a reflex can be run and checked (core/src/garis/agent/reflex.py).
use garis.Base.{
  ℕ, String, Bool, true, Option, none, some, List, [], ◌∷◌, ◌==◌, ◌≡◌, refl, arith, eq_iff, ◌||◌,
  if◌then◌else◌, is_some, Bool-cases, inl, inr,
}
use garis.Verifier.Table.{
  Reflex, ReflexPlan, reflexes, matches, find_in, by_tool, named_plan, plan_of, plan_found, find,
  plan_for,
}

-- The reflex of a tool that is in the table is in the index.
by_tool-find_in :
    (rs : List Reflex) (ws : List String) (r : Reflex)
    → find_in rs ws ≡ some r
    → is_some (by_tool rs r.tool) ≡ true
unfolding find_in by_tool
by_tool-find_in [] ws r h = absurd (cc)
by_tool-find_in (x ∷ rs) ws r h = elim (Bool-cases (matches x ws)) [
  | inl m ↦
      let here : some x ≡ some r = rw m at h in
      let same : x.tool ≡ r.tool = ground (arith, here) in
      indexed (by_tool rs r.tool) x r.tool (ground (arith, same, eq_iff x.tool r.tool))
  | inr m ↦
      let later : find_in rs ws ≡ some r = rw m at h in
      indexed (by_tool rs r.tool) x r.tool (ground (arith, by_tool-find_in rs ws r later))
]
  where
    indexed :
        (o : Option Reflex) (x : Reflex) (tool : String)
        → (is_some o || x.tool == tool) ≡ true
        → is_some (elim o [ none ↦ if x.tool == tool then some x else none | some y ↦ some y ])
          ≡ true
    indexed (some y) x tool e = refl
    indexed none x tool e = rw e refl

tool-named_plan :
    (r : Reflex) (o : Option String) (p : ReflexPlan) → named_plan r o ≡ some p → p.tool ≡ r.tool
tool-named_plan r none p h = absurd (cc)
tool-named_plan r (some w) p h = ground (arith, h)

tool-plan_of :
    (r : Reflex) (o : Option (List String → Option String)) (ws : List String) (p : ReflexPlan)
    → plan_of r o ws ≡ some p
    → p.tool ≡ r.tool
tool-plan_of r none ws p h = ground (arith, h)
tool-plan_of r (some f) ws p h = tool-named_plan r (f ws) p h

module _ (read_float : String → Option ℕ) (strip : String → String) where
  -- A plan that a reflex makes names a tool that was said to be available, and one whose value can be
  -- checked: the check never says that it does not know the tool.
  pub plan_for_checkable :
      (available : String → Bool) (ws : List String) (p : ReflexPlan)
      → plan_for read_float strip available ws ≡ some p
      → (available p.tool ≡ true) × (is_some (by_tool (reflexes read_float strip) p.tool) ≡ true)
  unfolding plan_for find
  plan_for_checkable available ws p h = found_plan (find_in (reflexes read_float strip) ws) refl h
    where
      found_plan :
          (o : Option Reflex)
          → find_in (reflexes read_float strip) ws ≡ o
          → plan_found available ws o ≡ some p
          → (available p.tool ≡ true)
            × (is_some (by_tool (reflexes read_float strip) p.tool) ≡ true)
      found_plan none e g = absurd (cc)
      found_plan (some r) e g = elim (Bool-cases (available r.tool)) [
        | inl b ↦
            let made : plan_of r r.params_from ws ≡ some p = rw b at g in
            let same = tool-plan_of r r.params_from ws p made in
            rw same (b, by_tool-find_in (reflexes read_float strip) ws r e)
        | inr b ↦ absurd (let g' : none ≡ some p = rw b at g in cc)
      ]
