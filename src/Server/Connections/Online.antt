-- ===== src/Server/Connections/Online.antt =====
-- Who is connected and who is marked as online, over connections in any number of tabs.
use node_chat_api.Prelude.{
  ℕ, ◌≡◌, none, List, [], ◌∷◌, Bool, true, false, not, arith, refl, ap, ◌∙◌, sym, if◌then◌else◌,
}
use node_chat_api.Action.{Action, ok, pure, ◌>>=◌, ◌>>◌}
use node_chat_api.Models.{Room}
use node_chat_api.Backend.{online_users, presence, user, ZSet, kept, without, placed}
use node_chat_api.World.{Backend, World}
use node_chat_api.Unread.{get_unread_counts}
use node_chat_api.Presence.{mark_online, mark_offline, join_presence, leave_presences}
use node_chat_api.Server.{Socket, Server, serve, emit, to_socket, unread_counts}
use node_chat_api.Members.{has_member}
use node_chat_api.Server.Connections.{
  has_user, add_socket, drop_socket, join_channel, join_rooms, connected, disconnected,
}
use node_chat_api.Server.Connections.Open.{
  live_unexpiring, Agrees, Agrees-path, Open, added, closed, kept_online, removed,
}

then-ok :
    {S B : Type 0} (m : Action S Unit) (k : Action S B) (s : S)
    → (m s).0 ≡ ok tt
    → (m >> k) s ≡ k (m s).1
then-ok m k s h = ground (arith, h)

module _ ⦃b : Backend⦄ where
  abbrev pub online_set : Server → ZSet
  online_set s = b.sets.zset s.world.sets online_users

  join_rooms_lem :
      (k : Socket) (rs : List Room) (s : Server)
      → ((join_rooms k rs s).0 ≡ ok tt)
        × ((join_rooms k rs s).1.user_sockets ≡ s.user_sockets)
        × (online_set (join_rooms k rs s).1 ≡ online_set s)
  unfolding join_presence
  join_rooms_lem k [] s = (refl, refl, refl)
  join_rooms_lem k (r ∷ rs) s =
      let rest =
        join_rooms_lem k rs
          ((join_channel k.id r.id >> serve (join_presence k.user.sub r.id)) s).1 in
      (
        rest.0,
        rest.1,
        rest.2
            ∙ b.sets.zset-zadd s.world.now s.world.now (presence r.id) online_users
                (user k.user.sub) s.world.sets,
      )

  pub online-mark_online :
      (u : ℕ) (w : World)
      → (b.sets.zset w.sets online_users).expires ≡ none
      → b.sets.zset (mark_online u w).1.sets online_users ≡ (record {
        items =
            placed b.sets.spelled_before
              (user u, w.now)
              (without (user u) (b.sets.zset w.sets online_users).items);
        expires = none;
      })
  unfolding mark_online
  online-mark_online u w h =
      b.sets.zset-zadd w.now w.now online_users online_users (user u) w.sets
      ∙ ap
          (λ z. record {
            items = placed b.sets.spelled_before (user u, w.now) (without (user u) z.items);
            expires = z.expires;
          })
          (live_unexpiring w.now (b.sets.zset w.sets online_users) h)
      ∙ ap
          (λ t. record {
            items =
                placed b.sets.spelled_before (user u, w.now)
                  (without (user u) (b.sets.zset w.sets online_users).items);
            expires = t;
          })
          h

  -- The state when `connected` comes to the rooms.
  abbrev pub tracked : Socket → Server → Server
  tracked k s = record s {
    world = (mark_online k.user.sub s.world).1;
    user_sockets = add_socket k.user.sub k.id s.user_sockets;
  }

  pub connected-tracked :
      (k : Socket) (s : Server)
      → ((connected k s).1.user_sockets ≡ (tracked k s).user_sockets)
        × (online_set (connected k s).1 ≡ online_set (tracked k s))
        × ((connected k s).1.channels
            ≡ (join_rooms k
                (b.rooms.find (λ r. has_member k.user.sub r.members) s.world.rooms)
                (tracked k s)).1.channels)
  unfolding connected get_unread_counts mark_online
  connected-tracked k s =
      let rooms : List Room = b.rooms.find (λ r. has_member k.user.sub r.members) s.world.rooms in
      let joined = join_rooms_lem k rooms (tracked k s) in
      let rest =
        then-ok (join_rooms k rooms)
          (serve (get_unread_counts k.user.sub) >>= λ counts.
            emit (to_socket k.id) (unread_counts counts))
          (tracked k s) joined.0 in
      (
        ap (λ r. r.1.user_sockets) rest ∙ joined.1,
        ap (λ r. online_set r.1) rest ∙ joined.2,
        ap (λ r. r.1.channels) rest,
      )

  leave_presences_lem :
      (now u : ℕ) (rs : List ℕ) (sets : b.sets.State)
      → b.sets.zset (leave_presences now u rs sets) online_users ≡ b.sets.zset sets online_users
  leave_presences_lem now u [] sets = refl
  leave_presences_lem now u (r ∷ rs) sets =
      leave_presences_lem now u rs (b.sets.zrem now (presence r) (user u) sets)
      ∙ b.sets.zset-zrem now (presence r) online_users (user u) sets

  online-mark_offline :
      (u : ℕ) (rs : List ℕ) (w : World)
      → (b.sets.zset w.sets online_users).expires ≡ none
      → b.sets.zset (mark_offline u rs w).1.sets online_users
        ≡ kept (without (user u) (b.sets.zset w.sets online_users).items) none
  unfolding mark_offline
  online-mark_offline u rs w h =
      leave_presences_lem w.now u rs (b.sets.zrem w.now online_users (user u) w.sets)
      ∙ b.sets.zset-zrem w.now online_users online_users (user u) w.sets
      ∙ ap (λ z. kept (without (user u) z.items) z.expires)
          (live_unexpiring w.now (b.sets.zset w.sets online_users) h)
      ∙ ap (λ t. kept (without (user u) (b.sets.zset w.sets online_users).items) t) h

  pub connected-Agrees :
      (k : Socket) (ps : Open) (s : Server)
      → Agrees ps s.user_sockets (online_set s)
      → Agrees
          ((k.user.sub, k.id) ∷ ps)
          (connected k s).1.user_sockets
          (online_set (connected k s).1)
  connected-Agrees k ps s h =
      let e = connected-tracked k s in
      Agrees-path ((k.user.sub, k.id) ∷ ps) (sym e.0)
        (sym (e.1 ∙ online-mark_online k.user.sub s.world h.2))
        (added b.sets.spelled_before k.user.sub k.id s.world.now ps s.user_sockets (online_set s) h)

  -- The state after 'disconnect', by what is asked of `userSockets`.
  departed : Socket → List ℕ → Bool → Server → Server
  departed k rs left s =
      ((if not left then serve (mark_offline k.user.sub rs) else pure tt)
        (record s { user_sockets = drop_socket k.user.sub k.id s.user_sockets })).1

  departed-Agrees :
      (k : Socket) (rs : List ℕ) (ps : Open) (s : Server) (left : Bool)
      → has_user k.user.sub (drop_socket k.user.sub k.id s.user_sockets) ≡ left
      → Agrees ps s.user_sockets (online_set s)
      → Agrees
          (closed k.user.sub k.id ps)
          (departed k rs left s).user_sockets
          (online_set (departed k rs left s))
  unfolding departed
  departed-Agrees k rs ps s true e h =
      kept_online k.user.sub k.id ps s.user_sockets (online_set s) e h
  departed-Agrees k rs ps s false e h =
      Agrees-path (closed k.user.sub k.id ps) refl
        (sym (online-mark_offline k.user.sub rs s.world h.2))
        (removed k.user.sub k.id ps s.user_sockets (online_set s) e h)

  pub disconnected-Agrees :
      (k : Socket) (rs : List ℕ) (ps : Open) (s : Server)
      → Agrees ps s.user_sockets (online_set s)
      → Agrees
          (closed k.user.sub k.id ps)
          (disconnected k rs s).1.user_sockets
          (online_set (disconnected k rs s).1)
  unfolding disconnected departed
  disconnected-Agrees k rs ps s h =
      departed-Agrees k rs ps s (has_user k.user.sub (drop_socket k.user.sub k.id s.user_sockets))
        refl h
