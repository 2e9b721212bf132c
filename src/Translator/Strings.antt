-- ===== src/Translator/Strings.antt =====
-- The functions of Go's strings package that only the translator calls, on ASCII.
use environment_operator.Prelude.{
  ℕ, ◌-◌, Text, Bool, not, ◌&&◌, ◌||◌, [], ◌∷◌, eqb, leb, if◌then◌else◌,
}

-- strings.Replace(s, "/", "2F", -1)
unfoldable pub escape : Text → Text
escape [] = []
escape (c ∷ s) = let rest = escape s in if eqb c b'/' then b'2' ∷ b'F' ∷ rest else c ∷ rest

unfoldable pub trim_left : Text → Text
trim_left [] = []
trim_left (c ∷ s) = let rest = trim_left s in if eqb c b' ' then rest else c ∷ s

-- The last character is dropped while it is a space.
abbrev unless_space : ℕ → Text → Text
unless_space c [] = if eqb c b' ' then [] else c ∷ []
unless_space c (d ∷ s) = c ∷ d ∷ s

unfoldable pub trim_right : Text → Text
trim_right [] = []
trim_right (c ∷ s) = unless_space c (trim_right s)

-- strings.Trim(s, " ")
unfoldable pub trim : Text → Text
unfolding trim_left trim_right
trim s = trim_right (trim_left s)

abbrev is_lower : ℕ → Bool
is_lower c = leb b'a' c && leb c b'z'

abbrev is_word : ℕ → Bool
is_word c = is_lower c || ((leb b'A' c && leb c b'Z') || ((leb b'0' c && leb c b'9') || eqb c b'_'))

-- The letters that begin a word, after the character before the text.
unfoldable pub title_after : ℕ → Text → Text
title_after before [] = []
title_after before (c ∷ s) =
    (if is_lower c && not (is_word before) then c - 32 else c) ∷ title_after c s

-- strings.Title
unfoldable pub title : Text → Text
unfolding title_after
title s = title_after b' ' s
