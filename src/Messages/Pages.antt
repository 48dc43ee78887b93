-- ===== src/Messages/Pages.antt =====
-- The pages of a room's history, read one after the other by their cursors.
use node_chat_api.Prelude.{
  ℕ, zero, suc, ◌+◌, ◌-◌, ◌≤◌, ◌<◌, ◌≡◌, none, some, List, [], ◌∷◌, ◌++◌, true, false, map, take,
  drop, length, ltb, arith, refl, if◌then◌else◌, inl, inr, Bool-cases, ap, ◌∙◌, sym, ◌==◌,
}
use mathlib.Core.List.{map-append, append-nil}
use node_chat_api.Action.{ok, err}
use node_chat_api.Models.{Room, Message}
use node_chat_api.World.{Backend, World, find_room}
use node_chat_api.Paginate.{Parsed}
use node_chat_api.Paginate.Bounds.{take_all}
use node_chat_api.Messages.{
  Before, absent, at, History, MessageResponse, to_message_response, last_time, page_of, page_size,
  in_history, is_no_date, get_message_history,
}
use node_chat_api.Messages.Cursor.{IsStrict, before, before-last_time, last_time-drop}

module _ {A : Type 0} where
  take-take : (n l : ℕ) (xs : List A) → l ≡ n + 1 → take n (take l xs) ≡ take n xs
  take-take zero l xs e = refl
  take-take (suc n) zero xs e = absurd (omega arith)
  take-take (suc n) (suc l) [] e = refl
  take-take (suc n) (suc l) (x ∷ xs) e = ap (λ ys. x ∷ ys) (take-take n l xs (omega arith))

  more-take : (n l : ℕ) (xs : List A) → l ≡ n + 1 → ltb n (length (take l xs)) ≡ ltb n (length xs)
  more-take n zero xs e = absurd (omega arith)
  more-take n (suc l) [] e = refl
  more-take zero (suc l) (x ∷ xs) e = ground arith
  more-take (suc n) (suc l) (x ∷ xs) e = ground (arith, more-take n l xs)

  drop_all : (k : ℕ) (xs : List A) → length xs ≤ k → drop k xs ≡ []
  drop_all zero [] h = refl
  drop_all zero (x ∷ xs) h = absurd (omega arith)
  drop_all (suc k) [] h = refl
  drop_all (suc k) (x ∷ xs) h = drop_all k xs (omega arith)

  length-drop : (k : ℕ) (xs : List A) → k ≤ length xs → k + length (drop k xs) ≡ length xs
  length-drop zero xs h = omega arith
  length-drop (suc k) [] h = absurd (omega arith)
  length-drop (suc k) (x ∷ xs) h = omega (arith, length-drop k xs)

  take-append-drop :
      (k n l : ℕ) (xs : List A) → l ≡ k + n → take n (drop k xs) ++ drop l xs ≡ drop k xs
  take-append-drop zero zero l xs e = ap (λ i. drop i xs) {y = zero} (omega arith)
  take-append-drop zero (suc n) zero xs e = absurd (omega arith)
  take-append-drop zero (suc n) (suc l) [] e = refl
  take-append-drop zero (suc n) (suc l) (x ∷ xs) e =
      ap (λ ys. x ∷ ys) (take-append-drop zero n l xs (omega arith))
  take-append-drop (suc k) n zero xs e = absurd (omega arith)
  take-append-drop (suc k) zero (suc l) [] e = refl
  take-append-drop (suc k) (suc n) (suc l) [] e = refl
  take-append-drop (suc k) n (suc l) (x ∷ xs) e = take-append-drop k n l xs (omega arith)

-- The page out of all documents that match.
abbrev cut : ℕ → List Message → History
cut n ms =
    if ltb n (length ms)
    then record {
      items = map to_message_response (take n ms);
      next_cursor = last_time (take n ms);
      has_more = true;
    }
    else record { items = map to_message_response ms; next_cursor = none; has_more = false }

page_of-take : (n : ℕ) (ms : List Message) → page_of n (take (n + 1) ms) ≡ cut n ms
page_of-take n ms =
    ground (arith, more-take n (n + 1) ms refl, take-take n (n + 1) ms refl, take_all (n + 1) ms)

page_size_positive : (limit : Parsed) → 1 ≤ page_size limit
page_size_positive limit = ground arith

module _ ⦃b : Backend⦄ where
  abbrev pub history : ℕ → World → List Message
  history i w = b.messages.find_recent (in_history i absent) w.messages

  -- What a client gets that asks for the first page and then, by each cursor, for the next, at most as
  -- many pages as the fuel.
  pub follow : ℕ → ℕ → Parsed → Before → World → List MessageResponse
  follow zero i limit from w = []
  follow (suc fuel) i limit from w = elim (get_message_history i from limit w).0 [
    | err e ↦ []
    | ok page ↦
        page.items ++ elim page.next_cursor [ none ↦ [] | some c ↦ follow fuel i limit (at c) w ]
  ]

  -- The documents behind a cursor, or all.
  abbrev found : ℕ → Before → World → List Message
  found i from w = b.messages.find_recent (in_history i from) w.messages

  page_at :
      (i : ℕ) (from : Before) (limit : Parsed) (w : World) (r : Room)
      → find_room i w ≡ some r
      → is_no_date from ≡ false
      → (get_message_history i from limit w).0 ≡ ok (cut (page_size limit) (found i from w))
  unfolding get_message_history
  page_at i from limit w r e d = ground (arith, page_of-take (page_size limit) (found i from w))

  found-at : (i c : ℕ) (w : World) → found i (at c) w ≡ before c (history i w)
  unfolding before
  found-at i c w =
      b.messages.find_recent-and (λ m. m.room_id == i) (λ m. ltb m.created_at c) w.messages

  follow_last :
      (fuel i : ℕ) (from : Before) (limit : Parsed) (w : World) (ms : List Message)
      → (get_message_history i from limit w).0 ≡ ok (cut (page_size limit) ms)
      → ltb (page_size limit) (length ms) ≡ false
      → follow (suc fuel) i limit from w ≡ map to_message_response ms ++ []
  unfolding follow
  follow_last fuel i from limit w ms e h = ground (arith, e)

  follow_more :
      (fuel i c : ℕ) (from : Before) (limit : Parsed) (w : World) (ms : List Message)
      → (get_message_history i from limit w).0 ≡ ok (cut (page_size limit) ms)
      → ltb (page_size limit) (length ms) ≡ true
      → last_time (take (page_size limit) ms) ≡ some c
      → follow (suc fuel) i limit from w
        ≡ map to_message_response (take (page_size limit) ms) ++ follow fuel i limit (at c) w
  unfolding follow
  follow_more fuel i c from limit w ms e h l = ground (arith, e)

  follow-drop :
      (fuel k i : ℕ) (from : Before) (limit : Parsed) (w : World) (r : Room)
      → find_room i w ≡ some r
      → IsStrict (history i w)
      → is_no_date from ≡ false
      → found i from w ≡ drop k (history i w)
      → k ≤ length (history i w)
      → length (history i w) ≤ k + fuel
      → follow fuel i limit from w ≡ map to_message_response (drop k (history i w))
  unfolding follow
  follow-drop zero k i from limit w r e s d f lo hi =
      ap (map to_message_response) (sym (drop_all k (history i w) (omega arith)))
  follow-drop (suc fuel) k i from limit w r e s d f lo hi =
      let all : List Message = history i w in
      let n : ℕ = page_size limit in
      let page : (get_message_history i from limit w).0 ≡ ok (cut n (drop k all)) =
        rw (sym f) (page_at i from limit w r e d) in
      elim (Bool-cases (ltb n (length (drop k all)))) [
        | inr last ↦
            follow_last fuel i from limit w (drop k all) page last
            ∙ append-nil (map to_message_response (drop k all))
        | inl more ↦
            let size = length-drop k all lo in
            let some_left : n < length (drop k all) = ground arith in
            let positive = page_size_positive limit in
            let (c, cursor, behind, _) = before-last_time (k + (n - 1)) all s (omega arith) in
            follow_more fuel i c from limit w (drop k all) page more (
              ap (λ x. last_time (take x (drop k all))) {y = suc (n - 1)} (omega arith)
              ∙ sym (last_time-drop k (n - 1) (suc (k + (n - 1))) all (omega arith) (omega arith))
              ∙ cursor)
            ∙ ap (λ ys. map to_message_response (take n (drop k all)) ++ ys)
                (follow-drop fuel (suc (k + (n - 1))) i (at c) limit w r e s refl
                  (found-at i c w ∙ behind) (omega arith) (omega arith))
            ∙ sym (
                map-append to_message_response (take n (drop k all)) (drop (suc (k + (n - 1))) all))
            ∙ ap (map to_message_response)
                (take-append-drop k n (suc (k + (n - 1))) all (omega arith))
      ]

  -- A client that asks for the latest page of a room's history and then follows the cursors gets every
  -- message of the room, newest first and each once, whatever the page size, when no two messages of the
  -- room were created in the same millisecond; as many requests as there are messages are enough.
  pub follow_lem :
      (fuel i : ℕ) (limit : Parsed) (w : World) (r : Room)
      → find_room i w ≡ some r
      → IsStrict (history i w)
      → length (history i w) ≤ fuel
      → follow fuel i limit absent w ≡ map to_message_response (history i w)
  follow_lem fuel i limit w r e s h =
      follow-drop fuel 0 i absent limit w r e s refl refl (omega arith) (omega arith)
