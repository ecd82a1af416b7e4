-- ===== src/Agents/Registry.antt =====
-- packages/agents/devmanager_agents/registry.py: the skills that the agent may call. What a handler
-- does with its input, and the text of a timeout, are parameters.
pub mod Skills
use agentic_dev_ops.Prelude.{
  ℕ, Bool, true, false, not, ◌||◌, Option, none, some, List, [], ◌∷◌, ◌++◌, if◌then◌else◌,
}
use agentic_dev_ops.Prelude.Dict.{Dict, lookup, insert, remove, has_key, values}
use agentic_dev_ops.Prelude.Text.{Text, codes, text_eq_instance}

pub record Skill : Type 0 where
  pub name : Text
  pub description : Text
  pub input_schema : Text
  -- `inspect.iscoroutinefunction(skill.handler)`
  pub is_async : Bool

abbrev pub SkillRegistry : Type 0
SkillRegistry = Dict Text Skill

-- `none` is a ValueError.
unfoldable pub register : Skill → SkillRegistry → Option SkillRegistry
register skill skills =
    if not skill.is_async || has_key skill.name skills
    then none
    else some (insert skill.name skill skills)

-- `none` is a KeyError.
unfoldable pub get : Text → SkillRegistry → Option Skill
get name skills = lookup name skills

unfoldable pub list_skills : SkillRegistry → List Skill
list_skills skills = values skills

-- The skills before the first that is refused stay registered; the flag says that one was refused.
unfoldable pub register_many : List Skill → SkillRegistry → SkillRegistry × Bool
unfolding register
register_many [] skills = (skills, false)
register_many (s ∷ ss) skills = elim (register s skills) [
  | none ↦ (skills, true)
  | some next ↦ register_many ss next
]

-- Whether the skill was there.
unfoldable pub unregister : Text → SkillRegistry → SkillRegistry × Bool
unregister name skills = (remove name skills, has_key name skills)

unfoldable pub replace : Skill → SkillRegistry → Option SkillRegistry
replace skill skills = if skill.is_async then some (insert skill.name skill skills) else none

pub record ToolDefinition : Type 0 where
  pub name : Text
  pub description : Text
  pub input_schema : Text

unfoldable pub definitions_of : List Skill → List ToolDefinition
definitions_of [] = []
definitions_of (s ∷ ss) =
    record { name = s.name; description = s.description; input_schema = s.input_schema }
    ∷ definitions_of ss

unfoldable pub to_tool_definitions : SkillRegistry → List ToolDefinition
unfolding definitions_of
to_tool_definitions skills = definitions_of (values skills)

-- How a handler ends. `failed` has the type and the text of the exception.
pub data HandlerEnd : Type 0 where
  returned : Text → HandlerEnd
  handler_timed_out : HandlerEnd
  failed : (kind message : Text) → HandlerEnd

module _ (run_handler : Skill → Text → HandlerEnd) (timeout_note : Skill → Text) where
  unfoldable pub output_of : Skill → HandlerEnd → Text
  output_of skill (returned t) = t
  output_of skill handler_timed_out = timeout_note skill
  output_of skill (failed kind message) =
      codes "(skill error: " ++ (kind ++ (codes ": " ++ (message ++ codes ")")))

  -- `none` is the KeyError of `get`; nothing else is raised.
  unfoldable pub execute : Text → Text → SkillRegistry → Option Text
  unfolding get output_of
  execute name input skills = elim (get name skills) [
    | none ↦ none
    | some skill ↦ some (output_of skill (run_handler skill input))
  ]
