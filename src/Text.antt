-- ===== src/Text.antt =====
-- The methods of JavaScript strings that the code walks a text with. A text is the list of its UTF-16
-- code units.
use mathlib.Core.List.{reverse}
use node_chat_api.Prelude.{
  ℕ, ◌+◌, List, [], ◌∷◌, Bool, true, false, not, ◌&&◌, ◌||◌, leb, ◌==◌, if◌then◌else◌,
}

abbrev pub Text : Type 0
Text = List ℕ

abbrev between : ℕ → ℕ → ℕ → Bool
between lo hi c = leb lo c && leb c hi

-- WhiteSpace and LineTerminator of the language.
abbrev pub is_space : ℕ → Bool
is_space c =
    between 9 13 c
    || c == 32
    || c == 160
    || c == 5760
    || between 8192 8202 c
    || between 8232 8233 c
    || c == 8239
    || c == 8287
    || c == 12288
    || c == 65279

pub trim_start : Text → Text
trim_start [] = []
trim_start (c ∷ s) = if is_space c then trim_start s else c ∷ s

unfoldable pub trim : Text → Text
unfolding trim_start
trim s = reverse (trim_start (reverse (trim_start s)))

abbrev pub is_empty : Text → Bool
is_empty [] = true
is_empty (c ∷ s) = false

abbrev is_high : ℕ → Bool
is_high c = between 0xD800 0xDBFF c

abbrev is_low : ℕ → Bool
is_low c = between 0xDC00 0xDFFF c

-- The code points from here on, after a high surrogate that waits for its low one or not.
points_from : Bool → Text → ℕ
points_from waiting [] = 0
points_from waiting (c ∷ s) =
    let pair = waiting && is_low c in
    (if pair then 0 else 1) + points_from (not pair && is_high c) s

-- `[...s].length`
unfoldable pub count_points : Text → ℕ
unfolding points_from
count_points s = points_from false s
