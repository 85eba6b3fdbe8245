-- ===== src/Text.antt =====
-- The functions of Go's `strings` and `unicode` that the services call, on the native strings,
-- which are sequences of code points.
pub mod Laws
pub mod Unicode
pub mod Format
use Prim.Native.Char.{code}
use Prim.Native.String.{[], ◌∷◌}
use wust_algo_tracker.Prelude.{
  ℕ, zero, suc, ◌+◌, String, Bool, true, false, ◌&&◌, ◌||◌, ◌==◌, leb, if◌then◌else◌,
}

-- unicode.IsSpace
unfoldable pub is_space : ℕ → Bool
is_space c =
    (leb 9 c && leb c 13)
    || (c == 32
        || (c == 0x85
            || (c == 0xa0
                || (c == 0x1680
                    || ((leb 0x2000 c && leb c 0x200a)
                        || (c == 0x2028
                            || (c == 0x2029 || (c == 0x202f || (c == 0x205f || c == 0x3000)))))))))

abbrev pub is_empty : String → Bool
is_empty [] = true
is_empty (c ∷ s) = false

unfoldable pub trim_left : String → String
trim_left [] = []
trim_left (c ∷ s) = if is_space (code c) then trim_left s else c ∷ s

unfoldable pub trim_right : String → String
trim_right [] = []
trim_right (c ∷ s) =
    let rest = trim_right s in if is_empty rest && is_space (code c) then [] else c ∷ rest

-- strings.TrimSpace
unfoldable pub trim_space : String → String
unfolding trim_left trim_right is_space
trim_space s = trim_right (trim_left s)

-- `len([]rune(s))`
unfoldable pub rune_count : String → ℕ
rune_count [] = 0
rune_count (c ∷ s) = suc (rune_count s)

-- `string([]rune(s)[:n])`, for n within the length
unfoldable pub rune_prefix : ℕ → String → String
rune_prefix zero s = []
rune_prefix (suc n) [] = []
rune_prefix (suc n) (c ∷ s) = c ∷ rune_prefix n s
