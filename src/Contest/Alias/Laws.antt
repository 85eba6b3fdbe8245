-- ===== src/Contest/Alias/Laws.antt =====
-- What the names of problems lead to.
use wust_algo_tracker.Prelude.{
  ◌≡◌, refl, String, Bool, true, false, ◌&&◌, some, List, [], ◌∷◌, all, arith, Option-cases, inl,
  inr,
}
use wust_algo_tracker.Text.{is_empty, trim_space}
use wust_algo_tracker.Text.Unicode.{Unicode, to_lower}
use wust_algo_tracker.Contest.{ContestProblemMeta}
use wust_algo_tracker.Contest.Alias.{
  lookup, register_problem_alias, register_all, register_problems, build_problem_alias_map,
  canonical_problem_key,
}

module _ (u : Unicode) (p : String → Bool) where
  -- Every name leads to a key of which the test holds.
  abbrev pub all_to : List (String × String) → Bool
  all_to [] = true
  all_to ((alias, key) ∷ aliases) = p key && all_to aliases

  lookup-all_to :
      (name key : String) (aliases : List (String × String))
      → all_to aliases ≡ true
      → lookup name aliases ≡ some key
      → p key ≡ true
  unfolding lookup
  lookup-all_to name key [] h k = absurd (cc)
  lookup-all_to name key ((alias, c) ∷ aliases) h k = ground (arith, lookup-all_to name key aliases)

  register-all_to :
      (alias key : String) (aliases : List (String × String))
      → p (trim_space key) ≡ true
      → all_to aliases ≡ true
      → all_to (register_problem_alias u alias key aliases) ≡ true
  unfolding register_problem_alias
  register-all_to alias key aliases h k = ground arith

  register_all-all_to :
      (names : List String) (key : String) (aliases : List (String × String))
      → p (trim_space key) ≡ true
      → all_to aliases ≡ true
      → all_to (register_all u names key aliases) ≡ true
  unfolding register_all
  register_all-all_to [] key aliases h k = k
  register_all-all_to (name ∷ names) key aliases h k =
      register_all-all_to names key (register_problem_alias u name key aliases) h
        (register-all_to name key aliases h k)

  abbrev pub is_to : ContestProblemMeta → Bool
  is_to problem = p (trim_space problem.key)

  register_problems-all_to :
      (problems : List ContestProblemMeta) (aliases : List (String × String))
      → all is_to problems ≡ true
      → all_to aliases ≡ true
      → all_to (register_problems u problems aliases) ≡ true
  unfolding register_problems all
  register_problems-all_to [] aliases h k = k
  register_problems-all_to (q ∷ problems) aliases h k =
      register_problems-all_to problems _ (ground (arith)) (
        register_all-all_to (q.key ∷ q.index ∷ q.name ∷ q.aliases) q.key aliases (ground (arith)) k)

  -- A key that is not empty, and of which the test holds, leads to such a key.
  pub canonical_problem_key-to :
      (problems : List ContestProblemMeta) (raw : String)
      → all is_to problems ≡ true
      → is_empty (trim_space raw) ≡ false
      → p (trim_space raw) ≡ true
      → p (canonical_problem_key u raw (build_problem_alias_map u problems)) ≡ true
  unfolding canonical_problem_key build_problem_alias_map
  canonical_problem_key-to problems raw h e k =
      let aliases = register_problems u problems [] in
      let to = register_problems-all_to problems [] h refl in
      let key = trim_space raw in
      rw e (elim (Option-cases (lookup key aliases)) [
        | inr (c, g) ↦ rw g (lookup-all_to key c aliases to g)
        | inl g ↦ rw g (elim (Option-cases (lookup (to_lower u key) aliases)) [
          | inr (c, l) ↦ rw l (lookup-all_to (to_lower u key) c aliases to l)
          | inl l ↦ rw l k
        ])
      ])
