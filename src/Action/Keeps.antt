-- ===== src/Action/Keeps.antt =====
-- What an action leaves as it was.
use node_chat_api.Prelude.{◌≡◌, Option, none, some, Bool, true, false, ◌∙◌, refl, if◌then◌else◌}
use node_chat_api.Errors.{Error}
use node_chat_api.Action.{Action, Result, ok, err, or_throw, ◌>>=◌}

pub record Keeps {S A X : Type 0} (f : S → X) (m : Action S A) : Type 0 where
  pub kept : (s : S) → f (m s).1 ≡ f s

bind-Keeps_from :
    {S A B X : Type 0} (f : S → X) (k : A → Action S B) (s : S) (p : Result A × S)
    → f p.1 ≡ f s
    → ((a : A) → Keeps f (k a))
    → f (((λ _. p) >>= k) s).1 ≡ f s
bind-Keeps_from f k s (ok a, s') e g = (g a).kept s' ∙ e
bind-Keeps_from f k s (err x, s') e g = e

pub bind-Keeps :
    {S A B X : Type 0} (f : S → X) (m : Action S A) (k : A → Action S B)
    → Keeps f m
    → ((a : A) → Keeps f (k a))
    → Keeps f (m >>= k)
bind-Keeps f m k h g = record { kept = λ s. bind-Keeps_from f k s (m s) (h.kept s) g }

pub if-Keeps :
    {S A X : Type 0} (f : S → X) (c : Bool) (m k : Action S A)
    → Keeps f m
    → Keeps f k
    → Keeps f (if c then m else k)
if-Keeps f true m k h g = h
if-Keeps f false m k h g = g

pub or_throw-Keeps :
    {S A X : Type 0} (f : S → X) (o : Option A) (e : Error) → Keeps f (or_throw {S = S} o e)
or_throw-Keeps f none e = record { kept = λ s. refl }
or_throw-Keeps f (some a) e = record { kept = λ s. refl }
