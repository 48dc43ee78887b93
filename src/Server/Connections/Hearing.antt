-- ===== src/Server/Connections/Hearing.antt =====
-- Which sockets an emission is for, and the channels that a socket joins.
use node_chat_api.Prelude.{
  ℕ, ◌≡◌, some, List, [], ◌∷◌, ◌++◌, Bool, true, not, ◌&&◌, ◌||◌, any, arith, ap, ◌∙◌, refl, ◌==◌,
  ==_refl, ==_iff,
}
use node_chat_api.Action.{Action, ◌>>◌}
use node_chat_api.Models.{Room}
use node_chat_api.World.{Backend, find_room}
use node_chat_api.Members.{has_member}
use node_chat_api.Presence.{join_presence}
use node_chat_api.Server.{Socket, Server, Audience, to_socket, to_room, to_others, serve}
use node_chat_api.Action.Keeps.{Keeps}
use node_chat_api.Server.Quiet.{who}
use node_chat_api.Server.Connections.{connected, disconnected, join_rooms, join_channel}
use node_chat_api.Server.Connections.Online.{tracked, connected-tracked}

abbrev pub is_subscribed : ℕ → ℕ → List (ℕ × ℕ) → Bool
is_subscribed j r cs = any (λ c. c.0 == j && c.1 == r) cs

-- Whether a connected socket gets an emission.
abbrev pub hears : ℕ → Audience → List (ℕ × ℕ) → Bool
hears j (to_socket i) cs = i == j
hears j (to_room r) cs = is_subscribed j r cs
hears j (to_others i r) cs = not (i == j) && is_subscribed j r cs

pub is_subscribed-append :
    (j r : ℕ) (cs ds : List (ℕ × ℕ))
    → is_subscribed j r (cs ++ ds) ≡ (is_subscribed j r cs || is_subscribed j r ds)
is_subscribed-append j r [] ds = refl
is_subscribed-append j r (c ∷ cs) ds = ground (arith, is_subscribed-append j r cs ds)

module _ ⦃b : Backend⦄ where
  -- Joining rooms subscribes the socket to each, and nobody to less.
  join_rooms-is_subscribed :
      (k : Socket) (rs : List Room) (s : Server) (j i : ℕ)
      → is_subscribed j i (join_rooms k rs s).1.channels
        ≡ (is_subscribed j i s.channels || (k.id == j && any (λ r. r.id == i) rs))
  unfolding join_presence
  join_rooms-is_subscribed k [] s j i = ground arith
  join_rooms-is_subscribed k (r ∷ rs) s j i =
      let v : Server = ((join_channel k.id r.id >> serve (join_presence k.user.sub r.id)) s).1 in
      ground (
        arith,
        join_rooms-is_subscribed k rs v j i,
        is_subscribed-append j i s.channels ((k.id, r.id) ∷ []),
      )

  pub connected-is_subscribed :
      (k : Socket) (s : Server) (j i : ℕ)
      → is_subscribed j i (connected k s).1.channels ≡ (
          is_subscribed j i s.channels
          || (k.id == j
              && any
                  (λ r. r.id == i)
                  (b.rooms.find (λ r. has_member k.user.sub r.members) s.world.rooms)))
  connected-is_subscribed k s j i =
      ap (is_subscribed j i) (connected-tracked k s).2
      ∙ join_rooms-is_subscribed k
          (b.rooms.find (λ r. has_member k.user.sub r.members) s.world.rooms) (tracked k s) j i

  -- A room that lists the user of a new socket.
  pub connected-listed :
      (k : Socket) (s : Server) (i : ℕ) (r : Room)
      → find_room i s.world ≡ some r
      → r.id ≡ i
      → has_member k.user.sub r.members ≡ true
      → is_subscribed k.id i (connected k s).1.channels ≡ true
  connected-listed k s i r e same listed = ground (
    arith,
    connected-is_subscribed k s k.id i,
    ==_refl k.id,
    ==_iff r.id i,
    b.rooms.find-any (λ r. has_member k.user.sub r.members) (λ r. r.id == i) s.world.rooms i r e,
  )

  pub kept_subscribed :
      (m : Action Server Unit) (s : Server) (j i : ℕ)
      → Keeps who m
      → is_subscribed j i s.channels ≡ true
      → is_subscribed j i (m s).1.channels ≡ true
  kept_subscribed m s j i h e = ap (λ x. is_subscribed j i x.1) (h.kept s) ∙ e

  pub disconnected_channels :
      (k : Socket) (rs : List ℕ) (s : Server) → (disconnected k rs s).1.channels ≡ s.channels
  unfolding disconnected
  disconnected_channels k rs s = ground arith
