-- ===== src/Action.antt =====
-- An `async` function: it reads and changes the state, and returns a value or throws. What was
-- written before a throw stays written, so the state comes back beside the error too.
pub mod Keeps
use node_chat_api.Prelude.{Bool, Option, none, some, if◌then◌else◌}
use node_chat_api.Errors.{Error}

pub data Result (A : Type 0) : Type 0 where
  ok : A → Result A
  err : Error → Result A

abbrev pub Action : Type 0 → Type 0 → Type 0
Action S A = S → Result A × S

module _ {S A : Type 0} where
  abbrev pub pure : A → Action S A
  pure a s = (ok a, s)

  abbrev pub throw : Error → Action S A
  throw e s = (err e, s)

  abbrev pub gets : (S → A) → Action S A
  gets f s = (ok (f s), s)

  -- A command that answers and changes the state.
  abbrev pub run : (S → A × S) → Action S A
  run f s = let (a, s') = f s in (ok a, s')

  -- `if (!o) throw e`, and the value otherwise.
  abbrev pub or_throw : Option A → Error → Action S A
  or_throw none e = throw e
  or_throw (some a) _ = pure a

abbrev pub throw_if : {S : Type 0} → Bool → Error → Action S Unit
throw_if c e s = (if c then err e else ok tt, s)

infixl 5 ◌>>=◌ ◌>>◌
abbrev pub ◌>>=◌ : {S A B : Type 0} → Action S A → (A → Action S B) → Action S B
◌>>=◌ m f s = let (r, s') = m s in elim r [ ok a ↦ f a s' | err e ↦ (err e, s') ]

abbrev pub ◌>>◌ : {S A B : Type 0} → Action S A → Action S B → Action S B
m >> k = m >>= λ _. k
