-- ===== src/Contest/Alias.antt =====
-- The other names of a contest's problems (app/core_data/internal/service/contest_matrix.go).
pub mod Laws
use wust_algo_tracker.Prelude.{
  String, ◌||◌, Option, none, some, List, [], ◌∷◌, str_eq, if◌then◌else◌,
}
use wust_algo_tracker.Text.{is_empty, trim_space}
use wust_algo_tracker.Text.Unicode.{Unicode, to_lower, map_runes}
use wust_algo_tracker.Contest.{ContestProblemMeta}

-- `aliases[key]`, in a map whose entries stand with the last written first.
unfoldable pub lookup : String → List (String × String) → Option String
lookup key [] = none
lookup key ((alias, canonical) ∷ aliases) =
    if str_eq alias key then some canonical else lookup key aliases

abbrev pub get_or : Option String → String → String
get_or none s = s
get_or (some t) s = t

module _ (u : Unicode) where
  -- registerProblemAlias
  unfoldable pub register_problem_alias :
      String → String → List (String × String) → List (String × String)
  unfolding trim_space map_runes
  register_problem_alias alias canonical aliases =
      let name = trim_space alias in
      let key = trim_space canonical in
      if is_empty name || is_empty key
      then aliases
      else (to_lower u name, key) ∷ (name, key) ∷ aliases

  unfoldable pub register_all :
      List String → String → List (String × String) → List (String × String)
  unfolding register_problem_alias
  register_all [] key aliases = aliases
  register_all (alias ∷ more) key aliases =
      register_all more key (register_problem_alias alias key aliases)

  unfoldable pub register_problems :
      List ContestProblemMeta → List (String × String) → List (String × String)
  unfolding register_all
  register_problems [] aliases = aliases
  register_problems (problem ∷ problems) aliases = register_problems problems (
      register_all (problem.key ∷ problem.index ∷ problem.name ∷ problem.aliases) problem.key
        aliases)

  -- buildProblemAliasMap
  unfoldable pub build_problem_alias_map : List ContestProblemMeta → List (String × String)
  unfolding register_problems
  build_problem_alias_map problems = register_problems problems []

  -- canonicalProblemKey
  unfoldable pub canonical_problem_key : String → List (String × String) → String
  unfolding trim_space map_runes lookup
  canonical_problem_key raw aliases =
      let key = trim_space raw in
      if is_empty key
      then ""
      else get_or (lookup key aliases) (get_or (lookup (to_lower u key) aliases) key)
