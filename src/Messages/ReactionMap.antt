-- ===== src/Messages/ReactionMap.antt =====
-- The map `reactions` of a message under `$addToSet` and `$pull` at one emoji.
use node_chat_api.Prelude.{
  ℕ, List, [], ◌∷◌, ◌++◌, Bool, true, false, not, ◌&&◌, ◌||◌, any, filter, ◌==◌, if◌then◌else◌,
}
use node_chat_api.Text.{Text}
use node_chat_api.Models.{Reactions}

abbrev pub text_eq : Text → Text → Bool
text_eq [] [] = true
text_eq (c ∷ s) (d ∷ t) = c == d && text_eq s t
text_eq _ _ = false

abbrev pub contains : ℕ → List ℕ → Bool
contains u us = any (λ v. v == u) us

-- A text that is one key of the map in a path: it has no dot, no dollar sign and no U+0000.
abbrev pub is_key : Text → Bool
is_key e = not (any (λ c. c == 46 || c == 36 || c == 0) e)

-- `reactions[emoji]`, empty where the key is missing.
unfoldable pub reactors : Text → Reactions → List ℕ
reactors e [] = []
reactors e ((f, us) ∷ rs) = if text_eq f e then us else reactors e rs

-- `$addToSet`, of a user who is not in the array: at the end, under a new key if there is none.
unfoldable pub add_to_set : Text → ℕ → Reactions → Reactions
add_to_set e u [] = (e, u ∷ []) ∷ []
add_to_set e u ((f, us) ∷ rs) =
    if text_eq f e
    then (f, if contains u us then us else us ++ u ∷ []) ∷ rs
    else (f, us) ∷ add_to_set e u rs

-- `$pull`: every occurrence; a missing key stays missing.
unfoldable pub pull : Text → ℕ → Reactions → Reactions
pull e u [] = []
pull e u ((f, us) ∷ rs) =
    if text_eq f e then (f, filter (λ v. not (v == u)) us) ∷ rs else (f, us) ∷ pull e u rs
