-- ===== src/Prelude/Text.antt =====
-- The tests that the source makes on texts: str.strip, membership in a character class, and the
-- regular expressions of identifiers and digests.
use Prim.Native.Nat.{ℕ, zero, suc}
use Prim.Native.Char.{code}
use Prim.Native.String.{String}
use mathlib.Core.Bool.{Bool, true, false, not, ◌&&◌, ◌||◌}
use mathlib.Core.List.{List, [], ◌∷◌}
use mathlib.Core.Option.{Option, none, some}
use qingtian_ai.Prelude.Tests.{leb, nat_eq, all, ◌==◌, if◌then◌else◌}

-- The code points of a text.
abbrev pub codes : String → List ℕ
codes String.[] = []
codes (String.◌∷◌ c s) = code c ∷ codes s

between : ℕ → ℕ → ℕ → Bool
between lo hi c = leb lo c && leb c hi

-- The code points that str.strip removes.
unfoldable pub is_space : ℕ → Bool
unfolding between
is_space c =
    between 0x09 0x0d c
    || between 0x1c 0x20 c
    || nat_eq c 0x85
    || nat_eq c 0xa0
    || nat_eq c 0x1680
    || between 0x2000 0x200a c
    || between 0x2028 0x2029 c
    || nat_eq c 0x202f
    || nat_eq c 0x205f
    || nat_eq c 0x3000

-- not value.strip()
unfoldable pub is_blank : String → Bool
unfolding is_space all
is_blank s = all is_space (codes s)

unfoldable pub is_digit : ℕ → Bool
unfolding between
is_digit c = between b'0' b'9' c

-- [A-Za-z0-9_-]
pub is_word : ℕ → Bool
unfolding between is_digit
is_word c =
    between b'A' b'Z' c || between b'a' b'z' c || is_digit c || nat_eq c b'_' || nat_eq c b'-'

-- [0-9a-f]
pub is_hex : ℕ → Bool
unfolding between is_digit
is_hex c = is_digit c || between b'a' b'f' c

abbrev nonempty : List ℕ → Bool
nonempty [] = false
nonempty (c ∷ cs) = true

-- The rest of a text behind a prefix.
pub after : List ℕ → List ℕ → Option (List ℕ)
after [] s = some s
after (p ∷ ps) [] = none
after (p ∷ ps) (c ∷ cs) = let rest = after ps cs in if nat_eq p c then rest else none

is_suffix : Option (List ℕ) → Bool
unfolding is_word all
is_suffix (some (c ∷ rest)) = nat_eq c b'_' && nonempty rest && all is_word rest
is_suffix _ = false

-- re.fullmatch of the prefix, an underscore and [A-Za-z0-9_-]+
unfoldable pub is_id : String → String → Bool
unfolding after is_suffix
is_id kind value = is_suffix (after (codes kind) (codes value))

has_length : ℕ → List ℕ → Bool
has_length zero [] = true
has_length (suc n) (c ∷ cs) = has_length n cs
has_length _ _ = false

-- re.fullmatch of [0-9a-f]{64}
unfoldable pub is_sha256 : String → Bool
unfolding is_hex has_length all
is_sha256 s = has_length 64 (codes s) && all is_hex (codes s)

-- The truth value of a text that may be None, and `a or b` over it.
abbrev pub truthy : Option String → Bool
truthy none = false
truthy (some s) = not (s == "")

abbrev pub or_else : Option String → String → String
or_else none t = t
or_else (some s) t = if s == "" then t else s
