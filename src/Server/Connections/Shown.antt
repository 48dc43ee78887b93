-- ===== src/Server/Connections/Shown.antt =====
-- How long a user who stays connected is shown as online.
use node_chat_api.Prelude.{
  ℕ, ◌+◌, ◌≡◌, none, some, List, [], ◌∷◌, Bool, true, false, leb, arith, ap, ◌∙◌, ==_refl,
}
use node_chat_api.Backend.{ZMember, user, live_zset, without, placed, score_in}
use node_chat_api.World.{Backend}
use node_chat_api.Presence.{is_online, is_fresh}
use node_chat_api.Presence.Eviction.{holds}
use node_chat_api.Server.{Socket, Server}
use node_chat_api.Server.Connections.{has_user, connected}
use node_chat_api.Server.Connections.Tabs.{has_user-add_socket}
use node_chat_api.Server.Connections.Open.{holds-without}
use node_chat_api.Server.Connections.Online.{online_set, connected-tracked, online-mark_online}

score_in-placed :
    (before : ZMember → ZMember → Bool) (u t : ℕ) (xs : List (ZMember × ℕ))
    → holds (user u) xs ≡ false
    → score_in (user u) (placed before (user u, t) xs) ≡ some t
score_in-placed before u t [] h = ground (arith, ==_refl u)
score_in-placed before u t (x ∷ xs) h = ground (arith, ==_refl u, score_in-placed before u t xs)

module _ ⦃b : Backend⦄ where
  -- The set `online:users` after `connected`.
  online-connected :
      (k : Socket) (s : Server)
      → (online_set s).expires ≡ none
      → online_set (connected k s).1 ≡ record {
        items =
            placed b.sets.spelled_before
              (user k.user.sub, s.world.now)
              (without (user k.user.sub) (online_set s).items);
        expires = none;
      }
  online-connected k s h = (connected-tracked k s).1 ∙ online-mark_online k.user.sub s.world h

  -- A user whose socket connects, and stays connected, is shown as online (to `getRoomPresence`) for
  -- five minutes from then and at no later time, although `userSockets` has the user all along: while
  -- nothing else writes to `online:users`, which has no expiry.
  pub is_online-connected :
      (k : Socket) (s : Server) (later : ℕ)
      → (online_set s).expires ≡ none
      → (has_user k.user.sub (connected k s).1.user_sockets ≡ true)
        × (is_online k.user.sub (record (connected k s).1.world { now = later })
            ≡ leb later (s.world.now + 300000))
  is_online-connected k s later h = (
    ap (has_user k.user.sub) (connected-tracked k s).0
        ∙ ground (
          arith,
          has_user-add_socket k.user.sub k.user.sub k.id s.user_sockets,
          ==_refl k.user.sub,
        ),
    ap (λ z. is_fresh later (score_in (user k.user.sub) (live_zset later z).items))
          (online-connected k s h)
        ∙ ap (is_fresh later) (
            score_in-placed b.sets.spelled_before k.user.sub s.world.now
              (without (user k.user.sub) (online_set s).items)
              (ground (
                arith,
                holds-without k.user.sub k.user.sub (online_set s).items,
                ==_refl k.user.sub,
              ))),
  )
