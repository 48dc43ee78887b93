-- ===== src/Rooms/Listing.antt =====
-- `listRooms`: its pages, one after the other, are all rooms that the user may see.
use node_chat_api.Prelude.{
  ℕ, zero, suc, ◌*◌, ◌≤◌, ◌≡◌, List, [], ◌++◌, map, filter, some, Bool, true, false, ◌&&◌, arith,
  refl, ap, ◌∙◌,
}
use mathlib.Core.List.{map-append}
use node_chat_api.Action.{Result, ok, err}
use node_chat_api.Models.{Room, RoomResponse, group, dm}
use node_chat_api.Middleware.Policy.{is_visible}
use node_chat_api.World.{Backend, World, find_room}
use node_chat_api.Paginate.{Paginated, ceil_div}
use node_chat_api.Paginate.Bounds.{pages, pages-eq-take, take_all, total_pages_exact}
use node_chat_api.Rooms.{list_rooms, is_listed, to_room_response}

abbrev pub items_of : Result (Paginated RoomResponse) → List RoomResponse
items_of (ok p) = p.items
items_of (err e) = []

abbrev pub total_of : Result (Paginated RoomResponse) → ℕ
total_of (ok p) = p.total_pages
total_of (err e) = 0

-- A group, and not hidden from the user by `requireMember`.
abbrev pub is_shown : ℕ → Room → Bool
is_shown u r = elim r.type [ dm ↦ false | group ↦ is_visible u (some r) ]

module _ ⦃b : Backend⦄ where
  abbrev pub HasNoTies : World → Type 0
  HasNoTies w =
      (i j : ℕ) (r q : Room)
      → find_room i w ≡ some r
      → find_room j w ≡ some q
      → r.created_at ≡ q.created_at
      → i ≡ j

  -- What the requests for the pages 1 to k return.
  pub listed : ℕ → ℕ → ℕ → World → List RoomResponse
  listed zero n u w = []
  listed (suc k) n u w =
      listed k n u w
      ++ items_of (list_rooms (record { page = suc k; page_size = n; skip = k * n }) u w).0

  listed-pages :
      (k n u : ℕ) (w : World)
      → listed k n u w
        ≡ map to_room_response (pages k n (b.rooms.find_recent (is_listed u) w.rooms))
  unfolding listed list_rooms
  listed-pages zero n u w = refl
  listed-pages (suc k) n u w = rw (listed-pages k n u w, map-append)

  is_listed-is_shown : (u : ℕ) (r : Room) → is_listed u r ≡ (true && is_shown u r)
  is_listed-is_shown u r = ground arith

  -- Of all rooms, newest first, those that are shown.
  listed_rooms :
      (u : ℕ) (w : World)
      → b.rooms.find_recent (is_listed u) w.rooms
        ≡ filter (is_shown u) (b.rooms.find_recent (λ r. true) w.rooms)
  listed_rooms u w =
      ap (λ p. b.rooms.find_recent p w.rooms) (λ i r. is_listed-is_shown u r i)
      ∙ b.rooms.find_recent-and (λ r. true) (is_shown u) w.rooms

  -- Let no two stored rooms be created at the same time. The requests for all pages, as many as the
  -- first answer counts, return, of all rooms, newest first, the groups that are open to the user in that
  -- `requireMember` lets them through to the room: each public group, and each private one that has the
  -- user as a member.
  pub list_rooms_pages :
      (n u : ℕ) (w : World)
      → 1 ≤ n
      → HasNoTies w
      → listed (total_of (list_rooms (record { page = 1; page_size = n; skip = 0 }) u w).0) n u w
        ≡ map to_room_response (filter (is_shown u) (b.rooms.find_recent (λ r. true) w.rooms))
  unfolding list_rooms
  list_rooms_pages n u w h apart =
      let rooms : List Room = b.rooms.find_recent (is_listed u) w.rooms in
      let total : ℕ = b.rooms.count_documents (is_listed u) w.rooms in
      listed-pages (ceil_div total n) n u w
      ∙ ap (map to_room_response) (
          pages-eq-take (ceil_div total n) n rooms
          ∙ take_all (ceil_div total n * n) rooms (
              omega (
                arith,
                b.rooms.count_documents-find_recent (is_listed u) w.rooms,
                (total_pages_exact rooms total 1 n h).0,
              ))
          ∙ listed_rooms u w)
