-- ===== src/Git/Classifier.antt =====
-- packages/git/devmanager_git/classifier.py. The regular expressions are read out as tests on texts.
-- `str.lower` over all of Unicode is the parameter `lower` of `detect_language` and
-- `compute_risk_tags`.
pub mod Paths
use agentic_dev_ops.Prelude.{
  ℕ, zero, suc, ◌+◌, ◌<◌, Bool, true, false, ◌&&◌, ◌||◌, not, Option, none, some, List, [], ◌∷◌,
  ◌++◌, String, any, ltb, nat_beq, ◌==◌, drop, map, length, is_nil, if◌then◌else◌,
}
use agentic_dev_ops.Prelude.Int.{ℤ, pos, ◌+ℤ◌, ltb_ℤ}
use agentic_dev_ops.Prelude.Text.{
  Text, codes, text_eq_instance, text_eq, starts_with, ends_with, contains,
}
use agentic_dev_ops.Prelude.Text.Split.{split_on}

abbrev pub lang_map : List (String × String)
lang_map =
    (".py", "python")
    ∷ (".pyi", "python")
    ∷ (".js", "javascript")
    ∷ (".mjs", "javascript")
    ∷ (".cjs", "javascript")
    ∷ (".ts", "typescript")
    ∷ (".tsx", "typescript")
    ∷ (".jsx", "javascript")
    ∷ (".java", "java")
    ∷ (".kt", "kotlin")
    ∷ (".go", "go")
    ∷ (".rs", "rust")
    ∷ (".c", "c")
    ∷ (".cpp", "cpp")
    ∷ (".cc", "cpp")
    ∷ (".h", "c")
    ∷ (".hpp", "cpp")
    ∷ (".cs", "csharp")
    ∷ (".rb", "ruby")
    ∷ (".php", "php")
    ∷ (".swift", "swift")
    ∷ (".scala", "scala")
    ∷ (".sql", "sql")
    ∷ (".sh", "shell")
    ∷ (".bash", "shell")
    ∷ (".zsh", "shell")
    ∷ (".yaml", "yaml")
    ∷ (".yml", "yaml")
    ∷ (".json", "json")
    ∷ (".toml", "toml")
    ∷ (".xml", "xml")
    ∷ (".html", "html")
    ∷ (".css", "css")
    ∷ (".scss", "css")
    ∷ (".md", "markdown")
    ∷ (".rst", "rst")
    ∷ (".tf", "terraform")
    ∷ (".dockerfile", "dockerfile")
    ∷ []

abbrev pub config_exts : List String
config_exts = ".yaml" ∷ ".yml" ∷ ".toml" ∷ ".json" ∷ ".ini" ∷ ".cfg" ∷ ".conf" ∷ ".env" ∷ []

abbrev pub dep_files : List String
dep_files =
    "package.json" ∷ "requirements.txt" ∷ "Pipfile" ∷ "pyproject.toml" ∷ "pom.xml" ∷ "build.gradle"
    ∷ "Cargo.toml" ∷ "go.mod" ∷ "go.sum" ∷ "Gemfile" ∷ "composer.json" ∷ []

-- `text in set`
unfoldable pub is_one_of : List String → Text → Bool
is_one_of names t = any (λ n. codes n == t) names

-- `_LANG_MAP.get(ext, default)`
unfoldable pub get_or : List (String × String) → Text → String → String
get_or [] t default = default
get_or ((k, v) ∷ m) t default = if codes k == t then v else get_or m t default

-- `$` matches at the end and before a line feed that ends the text.
unfoldable pub ends_line : Text → Text → Bool
unfolding ends_with
ends_line p s = ends_with p s || ends_with (p ++ 10 ∷ []) s

unfoldable pub is_vendor : Text → Bool
unfolding starts_with contains
is_vendor s =
    starts_with (codes "vendor/") s
    || starts_with (codes "node_modules/") s
    || starts_with (codes "third_party/") s
    || contains (codes "/vendor/") s
    || contains (codes "/node_modules/") s

unfoldable pub is_generated : Text → Bool
unfolding ends_line contains
is_generated s =
    ends_line (codes ".pb.go") s
    || ends_line (codes ".pb.py") s
    || ends_line (codes "_pb2.py") s
    || contains (codes ".generated.") s
    || contains (codes "/generated/") s
    || ends_line (codes ".min.js") s
    || ends_line (codes ".min.css") s
    || contains (codes "dist/") s
    || contains (codes "build/") s
    || contains (codes "__generated__/") s

-- `.*\.py$` at a place: `.` matches no line feed.
unfoldable pub dot_star_py : Text → Bool
dot_star_py [] = false
dot_star_py (c ∷ s) =
    (codes ".py" == c ∷ s || codes ".py" ++ 10 ∷ [] == c ∷ s) || not (nat_beq c 10) && dot_star_py s

-- `test_.*\.py$`, from any place.
unfoldable pub test_module : Text → Bool
unfolding dot_star_py starts_with
test_module [] = false
test_module (c ∷ s) = starts_with (codes "test_") (c ∷ s) && dot_star_py (drop 4 s) || test_module s

-- `\.mid\.(ts|js|tsx|jsx)$`
unfoldable pub script_suffix : String → Text → Bool
unfolding ends_line
script_suffix mid s =
    any (λ e. ends_line (codes mid ++ codes e) s) ("ts" ∷ "js" ∷ "tsx" ∷ "jsx" ∷ [])

unfoldable pub is_test_file : Text → Bool
unfolding contains ends_line script_suffix test_module
is_test_file s =
    (contains (codes "test/") s || contains (codes "tests/") s)
    || ends_line (codes "_test.go") s
    || ends_line (codes "_test.py") s
    || script_suffix ".test." s
    || script_suffix ".spec." s
    || test_module s
    || (contains (codes "/test/") s || contains (codes "/tests/") s)

-- `PurePosixPath(s).name`: the last part that is neither empty nor a dot.
unfoldable pub last_part : List Text → Text
last_part [] = []
last_part (p ∷ ps) =
    let later = last_part ps in
    if not (is_nil later) then later else if is_nil p || codes "." == p then [] else p

unfoldable pub path_name : Text → Text
unfolding last_part split_on
path_name s = last_part (split_on b'/' s)

-- The text from its last dot on, if it has one.
unfoldable pub from_last_dot : Text → Option Text
from_last_dot [] = none
from_last_dot (c ∷ s) = elim (from_last_dot s) [
  | some r ↦ some r
  | none ↦ if nat_beq c b'.' then some (c ∷ s) else none
]

-- `PurePosixPath(s).suffix`: a dot that starts or ends the name begins no suffix.
unfoldable pub suffix_of_name : Text → Option Text → Text
suffix_of_name name none = []
suffix_of_name name (some r) = if ltb 1 (length r) && ltb (length r) (length name) then r else []

unfoldable pub path_suffix : Text → Text
unfolding path_name from_last_dot suffix_of_name
path_suffix s = let name = path_name s in suffix_of_name name (from_last_dot name)

module _ (lower : Text → Text) where
  unfoldable pub detect_language : Text → String
  unfolding path_name path_suffix get_or
  detect_language file_path =
      if codes "dockerfile" == lower (path_name file_path)
      then "dockerfile"
      else get_or lang_map (lower (path_suffix file_path)) "unknown"

  unfoldable pub compute_risk_tags : Text → ℤ → ℤ → Bool → Bool → Bool → Bool → List String
  unfolding path_name path_suffix is_one_of
  compute_risk_tags file_path added deleted binary generated vendor test =
      let tags = if binary then "binary" ∷ [] else [] in
      let tags = if generated then tags ++ "generated" ∷ [] else tags in
      let tags = if vendor then tags ++ "vendor" ∷ [] else tags in
      let tags = if test then tags ++ "test" ∷ [] else tags in
      let tags = if ltb_ℤ (pos 500) (added +ℤ deleted) then tags ++ "large_change" ∷ [] else tags in
      let tags =
        if is_one_of config_exts (lower (path_suffix file_path))
        then tags ++ "config" ∷ []
        else tags in
      if is_one_of dep_files (path_name file_path) then tags ++ "dependency" ∷ [] else tags
