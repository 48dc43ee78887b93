-- ===== src/Messages/Toggle.antt =====
-- `message:react` toggles the caller's reaction and nobody else's.
use node_chat_api.Prelude.{
  ℕ, ◌≤◌, ◌≡◌, ◌↔◌, none, some, List, [], ◌∷◌, ◌++◌, Bool, true, false, not, ◌&&◌, ◌||◌, filter,
  arith, refl, is_some, ◌==◌, ==_iff, if◌then◌else◌, inl, inr, Bool-cases,
}
use node_chat_api.Text.{Text, count_points}
use node_chat_api.Action.{ok}
use node_chat_api.Models.{Message, Reactions}
use node_chat_api.World.{Backend, World, find_message}
use node_chat_api.Messages.ReactionMap.{text_eq, contains, is_key, reactors, add_to_set, pull}
use node_chat_api.Messages.{to_message_response, toggle_reaction}

text_eq_iff : (s t : Text) → (text_eq s t ≡ true) ↔ (s ≡ t)
text_eq_iff [] [] = ground arith
text_eq_iff [] (d ∷ t) = ground arith
text_eq_iff (c ∷ s) [] = ground arith
text_eq_iff (c ∷ s) (d ∷ t) = ground (arith, text_eq_iff s t)

contains-append : (v u : ℕ) (us : List ℕ) → contains v (us ++ u ∷ []) ≡ (contains v us || (u == v))
contains-append v u [] = ground arith
contains-append v u (x ∷ us) = ground (arith, contains-append v u us)

contains-without :
    (v u : ℕ) (us : List ℕ)
    → contains v (filter (λ x. not (x == u)) us) ≡ (not (u == v) && contains v us)
contains-without v u [] = ground arith
contains-without v u (x ∷ us) = ground (arith, contains-without v u us)

module _ (e f : Text) (u v : ℕ) where
  contains-add_to_set :
      (rs : Reactions)
      → contains u (reactors e rs) ≡ false
      → contains v (reactors f (add_to_set e u rs))
        ≡ (contains v (reactors f rs) || (text_eq e f && (u == v)))
  unfolding reactors add_to_set
  contains-add_to_set [] h = ground (arith, text_eq_iff e f)
  contains-add_to_set ((g, us) ∷ rs) h = ground (
    arith,
    text_eq_iff e f,
    text_eq_iff g e,
    text_eq_iff g f,
    contains-add_to_set rs,
    contains-append v u us,
  )

  contains-pull :
      (rs : Reactions)
      → contains v (reactors f (pull e u rs))
        ≡ (contains v (reactors f rs) && not (text_eq e f && (u == v)))
  unfolding reactors pull
  contains-pull [] = ground arith
  contains-pull ((g, us) ∷ rs) = ground (
    arith,
    text_eq_iff e f,
    text_eq_iff g e,
    text_eq_iff g f,
    contains-pull rs,
    contains-without v u us,
  )

-- Who reacts with what.
abbrev pub reacts : Text → ℕ → Message → Bool
reacts e u m = contains u (reactors e m.reactions)

module _ ⦃b : Backend⦄ where
  -- A reaction with one to four code points, none of them a dot, a dollar sign or U+0000, to a message
  -- that is not deleted returns it with nothing changed but its map of reactions, and there exactly one
  -- thing: the caller now reacts with that emoji if they did not, and does not if they did. That is what
  -- is stored too, and every other message stays as it was.
  pub toggle_reaction_lem :
      (i u : ℕ) (e : Text) (w : World) (m : Message)
      → find_message i w ≡ some m
      → m.deleted_at ≡ none
      → is_key e ≡ true
      → 1 ≤ count_points e
      → count_points e ≤ 4
      → (m' : Message) × ((toggle_reaction i u e w).0 ≡ ok (to_message_response m'))
        × (m' ≡ record m { reactions = m'.reactions })
        × ((j : ℕ)
            → find_message j (toggle_reaction i u e w).1
              ≡ (if i == j then some m' else find_message j w))
        × ((f : Text) (v : ℕ)
            → reacts f v m'
              ≡ (if text_eq e f && (u == v) then not (reacts e u m) else reacts f v m))
  unfolding toggle_reaction
  toggle_reaction_lem i u e w m stored there plain lo hi =
      let p : Message → Bool =
        λ m. not (is_some m.deleted_at) && not (contains u (reactors e m.reactions)) in
      let f : Message → Message = λ m. record m { reactions = add_to_set e u m.reactions } in
      let q : Message → Bool = λ m. not (is_some m.deleted_at) in
      let g : Message → Message = λ m. record m { reactions = pull e u m.reactions } in
      let s : b.messages.State = (b.messages.find_one_and_update i p f w.messages).1 in
      let r1 = b.messages.find_one_and_update-result i p f w.messages in
      let fi = b.messages.find_by_id-find_one_and_update i i p f w.messages in
      let f1 = λ (j : ℕ). b.messages.find_by_id-find_one_and_update i j p f w.messages in
      let r2 = b.messages.find_one_and_update-result i q g s in
      let f2 = λ (j : ℕ). b.messages.find_by_id-find_one_and_update i j q g s in
      elim (Bool-cases (contains u (reactors e m.reactions))) [
        | inl old ↦ (
          g m,
          ground arith,
          refl,
          (λ j. ground (arith, f1 j, f2 j, ==_iff i j)),
          (λ f v. ground (arith, contains-pull e f u v m.reactions, text_eq_iff e f)),
        )
        | inr new ↦ (
          f m,
          ground arith,
          refl,
          (λ j. ground (arith, f1 j, ==_iff i j)),
          (λ f v. ground (arith, contains-add_to_set e f u v m.reactions new, text_eq_iff e f)),
        )
      ]
