-- ===== src/Text/Unicode.antt =====
-- The functions of Go's `strings` that read the tables of Unicode, and those that look for a part.
use Prim.Native.Char.{Char, code}
use Prim.Native.String.{[], ◌∷◌}
use wust_algo_tracker.Prelude.{
  String, Bool, true, false, ◌||◌, ◌==◌, Option, none, some, str_eq, if◌then◌else◌,
}
use wust_algo_tracker.Text.{is_space, trim_left}

-- The tables of the package `unicode`: ToUpper, ToLower, and for each rune one that stands for all
-- those which SimpleFold leads to.
pub record Unicode : Type 0 where
  pub upper : Char → Char
  pub lower : Char → Char
  pub fold : Char → Char

unfoldable pub map_runes : (Char → Char) → String → String
map_runes f [] = []
map_runes f (c ∷ s) = f c ∷ map_runes f s

module _ (u : Unicode) where
  abbrev pub to_upper : String → String
  to_upper s = map_runes u.upper s

  abbrev pub to_lower : String → String
  to_lower s = map_runes u.lower s

  unfoldable pub equal_fold : String → String → Bool
  unfolding map_runes
  equal_fold s t = str_eq (map_runes u.fold s) (map_runes u.fold t)

-- strings.TrimPrefix where strings.HasPrefix holds, and `none` elsewhere
unfoldable pub strip_prefix : String → String → Option String
strip_prefix [] s = some s
strip_prefix (c ∷ p) [] = none
strip_prefix (c ∷ p) (d ∷ s) = if code c == code d then strip_prefix p s else none

abbrev is_some : Option String → Bool
is_some none = false
is_some (some s) = true

unfoldable pub has_prefix : String → String → Bool
unfolding strip_prefix
has_prefix s prefix = is_some (strip_prefix prefix s)

-- strings.Contains
unfoldable pub contains : String → String → Bool
unfolding has_prefix
contains [] part = has_prefix [] part
contains (c ∷ s) part = has_prefix (c ∷ s) part || contains s part

unfoldable word : String → String
unfolding is_space
word [] = []
word (c ∷ s) = if is_space (code c) then [] else c ∷ word s

-- `strings.Fields(s)[0]`, and the empty text where there is none
unfoldable pub first_field : String → String
unfolding trim_left word is_space
first_field s = word (trim_left s)
