-- ===== src/Text/Format.antt =====
-- Numbers and addresses as texts: `fmt.Sprintf("%d", n)` and `url.PathEscape`.
use Prim.Native.Char.{code}
use Prim.Native.String.{[], ◌∷◌, slice, ◌++◌ as str_append}
use wust_algo_tracker.Prelude.{
  ℕ, zero, suc, ◌+◌, ◌/◌, ◌%◌, String, Bool, ◌&&◌, ◌||◌, ◌==◌, ltb, leb, if◌then◌else◌,
}

abbrev digit : ℕ → String
digit n = slice "0123456789ABCDEF" n (suc n)

-- The digits of a number, given more fuel than it has.
unfoldable digits : ℕ → ℕ → String
digits zero n = []
digits (suc fuel) n =
    let front = digits fuel (n / 10) in
    if ltb n 10 then digit n else str_append front (digit (n % 10))

-- A number has no more digits than it is large, but for 0.
unfoldable pub decimal : ℕ → String
unfolding digits
decimal n = digits (suc n) n

-- `string(rune('A' + n%26))`
unfoldable pub letter : ℕ → String
letter n = slice "ABCDEFGHIJKLMNOPQRSTUVWXYZ" (n % 26) (suc (n % 26))

-- A byte as `url.PathEscape` writes it.
unfoldable percent : ℕ → String
percent b = str_append "%" (str_append (digit (b / 16)) (digit (b % 16)))

-- The bytes of a rune in UTF-8, so written.
unfoldable percent_rune : ℕ → String
unfolding percent
percent_rune c =
    if ltb c 0x80
    then percent c
    else if ltb c 0x800
    then str_append (percent (0xc0 + c / 64)) (percent (0x80 + c % 64))
    else if ltb c 0x10000
    then str_append (percent (0xe0 + c / 4096))
        (str_append (percent (0x80 + (c / 64) % 64)) (percent (0x80 + c % 64)))
    else str_append (percent (0xf0 + c / 262144)) (
        str_append (percent (0x80 + (c / 4096) % 64))
          (str_append (percent (0x80 + (c / 64) % 64)) (percent (0x80 + c % 64))))

-- The runes that `url.PathEscape` keeps: letters, digits, and "$&+-.:=@_~".
unfoldable is_kept : ℕ → Bool
is_kept c =
    (leb 65 c && leb c 90)
    || ((leb 97 c && leb c 122)
        || ((leb 48 c && leb c 57)
            || (c == 36
                || (c == 38
                    || (c == 43
                        || (c == 45
                            || (c == 46
                                || (c == 58
                                    || (c == 61 || (c == 64 || (c == 95 || c == 126)))))))))))

unfoldable pub path_escape : String → String
unfolding is_kept percent_rune
path_escape [] = []
path_escape (c ∷ s) =
    if is_kept (code c)
    then c ∷ path_escape s
    else str_append (percent_rune (code c)) (path_escape s)
