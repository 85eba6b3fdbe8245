-- ===== src/Text/Laws.antt =====
-- Laws of trimming and of runes.
use Prim.Native.Char.{code}
use Prim.Native.String.{[], ◌∷◌}
use wust_algo_tracker.Prelude.{
  ℕ, zero, suc, ◌≤◌, String, ◌≡◌, refl, Bool, false, ◌&&◌, arith, inl, inr, Bool-cases,
}
use wust_algo_tracker.Text.{
  is_space, is_empty, trim_left, trim_right, trim_space, rune_count, rune_prefix,
}

trim_right_idem : (s : String) → trim_right (trim_right s) ≡ trim_right s
unfolding trim_right
trim_right_idem [] = refl
trim_right_idem (c ∷ s) = elim (Bool-cases (is_empty (trim_right s) && is_space (code c))) [
  | inl e ↦ rw e
  | inr e ↦ rw (e, trim_right_idem s) (rw e)
]

-- Whether a text begins with a space.
abbrev head_space : String → Bool
head_space [] = false
head_space (c ∷ s) = is_space (code c)

head_space-trim_left : (s : String) → head_space (trim_left s) ≡ false
unfolding trim_left
head_space-trim_left [] = refl
head_space-trim_left (c ∷ s) = elim (Bool-cases (is_space (code c))) [
  | inl e ↦ rw e (head_space-trim_left s)
  | inr e ↦ rw e e
]

head_space-trim_right : (s : String) → head_space s ≡ false → head_space (trim_right s) ≡ false
unfolding trim_right
head_space-trim_right [] h = refl
head_space-trim_right (c ∷ s) h = elim (Bool-cases (is_empty (trim_right s) && is_space (code c))) [
  | inl e ↦ rw e
  | inr e ↦ rw e h
]

trim_left_of_head : (s : String) → head_space s ≡ false → trim_left s ≡ s
unfolding trim_left
trim_left_of_head [] h = refl
trim_left_of_head (c ∷ s) h = rw h

-- Trimming twice is trimming once.
pub trim_space_idem : (s : String) → trim_space (trim_space s) ≡ trim_space s
unfolding trim_space
trim_space_idem s =
    rw
      (trim_left_of_head (trim_right (trim_left s))
        (head_space-trim_right (trim_left s) (head_space-trim_left s)))
      (trim_right_idem (trim_left s))

pub rune_count-rune_prefix :
    (n : ℕ) (s : String) → n ≤ rune_count s → rune_count (rune_prefix n s) ≡ n
unfolding rune_count rune_prefix
rune_count-rune_prefix zero s h = refl
rune_count-rune_prefix (suc n) [] h = absurd (omega arith)
rune_count-rune_prefix (suc n) (c ∷ s) h = omega (arith, rune_count-rune_prefix n s (omega arith))
