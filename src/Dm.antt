-- ===== src/Dm.antt =====
-- services/dmService.js. A key joins the two ids in their order, which is that of the numbers.
pub mod Pairs
pub mod Departure
pub mod Race
use Prim.Native.Nat.{min, max}
use node_chat_api.Prelude.{
  ℕ, String, Option, none, some, List, [], ◌∷◌, Bool, true, false, not, ◌&&◌, map, is_some, ◌==◌,
}
use node_chat_api.Errors.{validation, not_found, duplicate_key}
use node_chat_api.Action.{Action, ok, pure, throw, gets, throw_if, ◌>>=◌, ◌>>◌}
use node_chat_api.Models.{Room, RoomType, member, dm}
use node_chat_api.World.{Backend, World, find_user}
use node_chat_api.Members.{is_dm, has_member}

abbrev pub build_dm_key : ℕ → ℕ → ℕ × ℕ
build_dm_key a c = (min a c, max a c)

pub record DmResponse : Type 0 where
  pub id : ℕ
  pub type : RoomType
  pub is_private : Bool
  pub member_ids : List ℕ
  pub created_at : ℕ

abbrev pub to_dm_response : Room → DmResponse
to_dm_response r = record {
  id = r.id;
  type = r.type;
  is_private = true;
  member_ids = map (λ m. m.user_id) r.members;
  created_at = r.created_at;
}

abbrev key_matches : Option (ℕ × ℕ) → ℕ × ℕ → Bool
key_matches none k = false
key_matches (some j) k = j.0 == k.0 && j.1 == k.1

-- `{type: 'dm', dmKey}`
abbrev pub is_dm_of : ℕ × ℕ → Room → Bool
is_dm_of k r = is_dm r.type && key_matches r.dm_key k

module _ ⦃b : Backend⦄ where
  -- The document that the slow path creates; `name` is the text of the key.
  abbrev pub dm_room : ℕ → String → ℕ → ℕ → ℕ → Room
  dm_room room_id name requester target now = record {
    id = room_id;
    name = name;
    description = none;
    created_by = requester;
    members =
        (record { user_id = requester; role = member; joined_at = now })
        ∷ (record { user_id = target; role = member; joined_at = now })
        ∷ [];
    is_private = true;
    type = dm;
    dm_key = some (build_dm_key requester target);
    created_at = now;
  }

  -- After the duplicate-key error of `create`.
  created_by_other : Option Room → Action World DmResponse
  created_by_other none = throw duplicate_key
  created_by_other (some room) = pure (to_dm_response room)

  pub create_dm : ℕ → ℕ × ℕ → Room → Action World DmResponse
  unfolding created_by_other
  create_dm room_id key room w = elim (b.rooms.create room_id room w.rooms) [
    | none ↦ created_by_other (b.rooms.find_one (is_dm_of key) w.rooms) w
    | some s ↦ (ok (to_dm_response room), record w { rooms = s })
  ]

  existing_or_new : ℕ → ℕ × ℕ → Room → Option Room → Action World DmResponse
  unfolding create_dm
  existing_or_new room_id key room (some existing) = pure (to_dm_response existing)
  existing_or_new room_id key room none = create_dm room_id key room

  unfoldable pub find_or_create_dm : ℕ → (ℕ × ℕ → String) → ℕ → ℕ → Action World DmResponse
  unfolding existing_or_new
  find_or_create_dm room_id spelled requester target = do
    throw_if (requester == target) (validation "Cannot start a DM with yourself." "SELF_DM")
    user ← gets (find_user target)
    throw_if (not (is_some user)) (not_found "User not found." "USER_NOT_FOUND")
    existing ← gets (λ w. b.rooms.find_one (is_dm_of (build_dm_key requester target)) w.rooms)
    now ← gets (λ w. w.now)
    existing_or_new room_id (build_dm_key requester target)
        (dm_room room_id (spelled (build_dm_key requester target)) requester target now) existing

  -- `sorted` is the order of `updatedAt`, which Mongoose keeps, newest first.
  pub list_dms : (List Room → List Room) → ℕ → Action World (List DmResponse)
  list_dms sorted user_id = gets λ w.
      map to_dm_response
        (sorted (b.rooms.find (λ r. is_dm r.type && has_member user_id r.members) w.rooms))
