-- ===== src/Agents/Registry/Skills.antt =====
-- Which skills a registry holds.
use agentic_dev_ops.Prelude.{
  ◌≡◌, sym, ap, ◌∙◌, false, inl, inr, Bool-cases, not, ◌||◌, none, some, ◌==◌, if◌then◌else◌, arith,
}
use agentic_dev_ops.Prelude.Dict.{lookup, lookup-insert, has_key, has_key-lookup}
use agentic_dev_ops.Prelude.Text.{Text, text_eq_instance}
use agentic_dev_ops.Agents.Registry.{Skill, SkillRegistry, register, get}

some_inj : {A : Type 0} {x y : A} → some x ≡ some y → x ≡ y
some_inj e = cc

-- A skill that is registered replaces none: it was not there before, it is there afterwards, and
-- every other name has the skill that it had.
pub register_lem :
    (skill : Skill) (skills next : SkillRegistry) (name : Text)
    → register skill skills ≡ some next
    → (get skill.name skills ≡ none)
      × (get name next ≡ (if skill.name == name then some skill else get name skills))
unfolding register get
register_lem skill skills next name h =
    elim (Bool-cases (not skill.is_async || has_key skill.name skills)) [
      | inl e ↦ let h' = rw e at h in absurd (cc)
      | inr e ↦
          let h' = rw e at h in
          let absent : has_key skill.name skills ≡ false = ground arith in
          (
            has_key-lookup skill.name skills absent,
            ap (λ d. lookup name d) (sym (some_inj h'))
                ∙ lookup-insert skill.name name skill skills,
          )
    ]
