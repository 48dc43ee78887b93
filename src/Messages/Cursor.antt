-- ===== src/Messages/Cursor.antt =====
-- Cutting a list of messages, newest first and no two of one time, at the time of a message.
use node_chat_api.Prelude.{
  ℕ, zero, suc, ◌+◌, ◌<◌, ◌≡◌, some, List, [], ◌∷◌, filter, take, drop, length, ltb, ap, arith,
  refl,
}
use node_chat_api.Models.{Message}
use node_chat_api.Messages.{last_time}

abbrev pub AllBefore : ℕ → List Message → Type 0
AllBefore t [] = Unit
AllBefore t (m ∷ ms) = (m.created_at < t) × AllBefore t ms

-- Each message is older than the one before it.
abbrev pub IsStrict : List Message → Type 0
IsStrict [] = Unit
IsStrict (m ∷ ms) = AllBefore m.created_at ms × IsStrict ms

unfoldable pub before : ℕ → List Message → List Message
before c ms = filter (λ m. ltb m.created_at c) ms

filter-AllBefore : (c : ℕ) (ms : List Message) → AllBefore c ms → before c ms ≡ ms
unfolding before
filter-AllBefore c [] a = refl
filter-AllBefore c (m ∷ ms) a = ground (arith, filter-AllBefore c ms)

AllBefore-mono : (s t : ℕ) (ms : List Message) → s < t → AllBefore s ms → AllBefore t ms
AllBefore-mono s t [] h a = tt
AllBefore-mono s t (m ∷ ms) h a = (omega (arith, a.0), AllBefore-mono s t ms h a.1)

-- The messages before the last of the first k + 1 are those behind these.
pub before-last_time :
    (k : ℕ) (ms : List Message)
    → IsStrict ms
    → k < length ms
    → (c : ℕ) × (last_time (take (suc k) ms) ≡ some c)
      × (before c ms ≡ drop (suc k) ms)
      × ((t : ℕ) → AllBefore t ms → c < t)
unfolding before
before-last_time k [] s h = absurd (omega arith)
before-last_time zero (m ∷ ms) s h =
    (m.created_at, refl, ground (arith, filter-AllBefore m.created_at ms s.0), (λ t a. a.0))
before-last_time (suc k) (m ∷ []) s h = absurd (omega arith)
before-last_time (suc k) (m ∷ n ∷ ms) s h =
    let (c, e, f, g) = before-last_time k (n ∷ ms) s.1 (omega arith) in
    (c, e, ground (arith, f, g m.created_at s.0), (λ t a. omega (arith, g t a.1)))

pub last_time-drop :
    (k n l : ℕ) (ms : List Message)
    → l ≡ k + suc n
    → k < length ms
    → last_time (take l ms) ≡ last_time (take (suc n) (drop k ms))
last_time-drop zero n l ms e h = ap (λ x. last_time (take x ms)) {y = suc n} (omega arith)
last_time-drop (suc k) n l [] e h = absurd (omega arith)
last_time-drop (suc k) n l (m ∷ []) e h = absurd (omega arith)
last_time-drop (suc k) n zero (m ∷ p ∷ ms) e h = absurd (omega arith)
last_time-drop (suc k) n (suc zero) (m ∷ p ∷ ms) e h = absurd (omega arith)
last_time-drop (suc k) n (suc (suc l)) (m ∷ p ∷ ms) e h =
    last_time-drop k n (suc l) (p ∷ ms) (omega arith) (omega arith)
