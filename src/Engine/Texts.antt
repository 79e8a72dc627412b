-- ===== src/Engine/Texts.antt =====
-- Python's text operations that qingtian_engine uses: `in`, str.startswith, " ".join, and the dict
-- of a row.
use Prim.Native.Char.{code}
use Prim.Native.String.{◌++◌ as text_append}
use qingtian_ai.Prelude.{
  Bool, List, Option, String, [], any, false, if◌then◌else◌, is_space, nat_eq, or_else, true, ◌&&◌,
  ◌==◌, ◌||◌, ◌∷◌,
}

-- text.startswith(prefix)
unfoldable pub starts_with : String → String → Bool
starts_with String.[] text = true
starts_with (String.◌∷◌ p ps) String.[] = false
starts_with (String.◌∷◌ p ps) (String.◌∷◌ c cs) = nat_eq (code p) (code c) && starts_with ps cs

-- part in text
unfoldable pub contains : String → String → Bool
contains part String.[] = starts_with part String.[]
contains part (String.◌∷◌ c cs) = starts_with part (String.◌∷◌ c cs) || contains part cs

-- any(marker in text for marker in markers)
unfoldable pub any_in : List String → String → Bool
any_in markers text = any (λ marker. contains marker text) markers

-- " ".join(parts)
unfoldable pub spaced : List String → String
spaced [] = ""
spaced (s ∷ []) = s
spaced (s ∷ t ∷ rest) = text_append s (text_append " " (spaced (t ∷ rest)))

-- text.lstrip()
unfoldable pub lstrip : String → String
lstrip String.[] = String.[]
lstrip (String.◌∷◌ c s) = let rest = lstrip s in if is_space (code c) then rest else String.◌∷◌ c s

-- text.rstrip(): a character is dropped if nothing but spaces follows
unfoldable pub rstrip : String → String
rstrip String.[] = String.[]
rstrip (String.◌∷◌ c s) =
    let rest = rstrip s in if is_space (code c) && rest == "" then String.[] else String.◌∷◌ c rest

-- text.strip()
unfoldable pub strip : String → String
strip s = rstrip (lstrip s)

-- str(value or default), for a value that may be None
unfoldable pub text_or : Option String → String → String
text_or value default = or_else value default
