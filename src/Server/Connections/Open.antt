-- ===== src/Server/Connections/Open.antt =====
-- The connections that are open, and what it is that `userSockets` and `online:users` agree with them.
use mathlib.Core.Path.{subst}
use node_chat_api.Prelude.{
  ℕ, ◌≡◌, none, List, [], ◌∷◌, Bool, true, false, not, ◌&&◌, ◌||◌, any, filter, arith, refl, ap,
  ◌∙◌, sym, ◌==◌, ==_refl,
}
use node_chat_api.Backend.{ZMember, user, stamp, member_eq, ZSet, live_zset, kept, without, placed}
use node_chat_api.Presence.Eviction.{holds}
use node_chat_api.Server.Connections.{sockets_of, has_user, add_socket, drop_socket}
use node_chat_api.Server.Connections.Tabs.{
  UserSockets, is_held, is_nonempty, IsMap, is_held-add_socket, add_socket-IsMap, drop_socket-IsMap,
  is_held-drop_socket, has_user-sockets_of,
}

-- The open connections: a user and a socket each.
abbrev pub Open : Type 0
Open = List (ℕ × ℕ)

abbrev pub is_open : ℕ → ℕ → Open → Bool
is_open u i ps = any (λ p. p.0 == u && p.1 == i) ps

abbrev pub is_connected : ℕ → Open → Bool
is_connected u ps = any (λ p. p.0 == u) ps

abbrev pub closed : ℕ → ℕ → Open → Open
closed u i ps = filter (λ p. not (p.0 == u && p.1 == i)) ps

pub is_open-closed :
    (v j u i : ℕ) (ps : Open)
    → is_open v j (closed u i ps) ≡ (is_open v j ps && not (u == v && i == j))
is_open-closed v j u i [] = refl
is_open-closed v j u i (p ∷ ps) = ground (arith, is_open-closed v j u i ps)

pub is_open-connected : (v j : ℕ) (ps : Open) → is_open v j ps ≡ true → is_connected v ps ≡ true
is_open-connected v j [] h = cc
is_open-connected v j (p ∷ ps) h = ground (arith, is_open-connected v j ps)

pub none_open : (v : ℕ) (ps : Open) → ((j : ℕ) → is_open v j ps ≡ false) → is_connected v ps ≡ false
none_open v [] h = refl
none_open v (p ∷ ps) h = ground (arith, h p.1, none_open v ps (λ j. ground (arith, h j)))

-- A map that holds the open connections has the keys of the connected users.
pub connected_of_held :
    (v : ℕ) (m : UserSockets) (ps : Open) (ids : List ℕ)
    → sockets_of v m ≡ ids
    → ((j : ℕ) → is_held v j m ≡ is_open v j ps)
    → is_nonempty ids ≡ is_connected v ps
connected_of_held v m ps [] e h = sym (none_open v ps (λ j. ground (arith, e, h j)))
connected_of_held v m ps (i ∷ ids) e h = ground (arith, e, h i, ==_refl i, is_open-connected v i ps)

pub has_user-is_connected :
    (v : ℕ) (m : UserSockets) (ps : Open)
    → IsMap m
    → ((j : ℕ) → is_held v j m ≡ is_open v j ps)
    → has_user v m ≡ is_connected v ps
has_user-is_connected v m ps map h =
    has_user-sockets_of v m map ∙ connected_of_held v m ps (sockets_of v m) refl h

pub holds-placed :
    (before : ZMember → ZMember → Bool) (m : ZMember) (x : ZMember × ℕ) (xs : List (ZMember × ℕ))
    → holds m (placed before x xs) ≡ (member_eq x.0 m || holds m xs)
holds-placed before m x [] = refl
holds-placed before m x (y ∷ ys) = ground (arith, holds-placed before m x ys)

pub holds-without :
    (u v : ℕ) (xs : List (ZMember × ℕ))
    → holds (user v) (without (user u) xs) ≡ (holds (user v) xs && not (u == v))
holds-without u v [] = refl
holds-without u v ((user w, t) ∷ xs) = ground (arith, holds-without u v xs)
holds-without u v ((stamp r q, t) ∷ xs) = ground (arith, holds-without u v xs)

pub holds-kept : (m : ZMember) (xs : List (ZMember × ℕ)) → holds m (kept xs none).items ≡ holds m xs
holds-kept m [] = refl
holds-kept m (x ∷ xs) = refl

pub kept-expires : (xs : List (ZMember × ℕ)) → (kept xs none).expires ≡ none
kept-expires [] = refl
kept-expires (x ∷ xs) = refl

-- The two maps agree with the connections that are open.
abbrev pub Agrees : Open → UserSockets → ZSet → Type 0
Agrees ps m z =
    IsMap m
    × ((v j : ℕ) → is_held v j m ≡ is_open v j ps)
    × (z.expires ≡ none)
    × ((v : ℕ) → holds (user v) z.items ≡ is_connected v ps)

pub Agrees-path :
    {m n : UserSockets} {y z : ZSet} (ps : Open) → m ≡ n → y ≡ z → Agrees ps m y → Agrees ps n z
Agrees-path {m} {n} {y} {z} ps e f h = subst (λ k. Agrees ps k z) e (subst (λ k. Agrees ps m k) f h)

pub added :
    (before : ZMember → ZMember → Bool) (u i t : ℕ) (ps : Open) (m : UserSockets) (z : ZSet)
    → Agrees ps m z
    → Agrees
        ((u, i) ∷ ps)
        (add_socket u i m)
        (record { items = placed before (user u, t) (without (user u) z.items); expires = none })
added before u i t ps m z (map, held, unexpiring, members) = (
  add_socket-IsMap u i m map,
  λ v j. ground (arith, is_held-add_socket v j u i m, held v j),
  refl,
  λ v. ground (
    arith,
    holds-placed before (user v) (user u, t) (without (user u) z.items),
    holds-without u v z.items,
    members v,
  ),
)

pub is_connected-closed_other :
    (v u i : ℕ) (ps : Open) → (u == v) ≡ false → is_connected v (closed u i ps) ≡ is_connected v ps
is_connected-closed_other v u i [] h = refl
is_connected-closed_other v u i (p ∷ ps) h = ground (arith, is_connected-closed_other v u i ps h)

pub connected_before :
    (v u i : ℕ) (ps : Open) → is_connected v (closed u i ps) ≡ true → is_connected v ps ≡ true
connected_before v u i [] h = h
connected_before v u i (p ∷ ps) h = ground (arith, connected_before v u i ps)

pub held_after :
    (u i : ℕ) (ps : Open) (m : UserSockets) (z : ZSet)
    → Agrees ps m z
    → (v j : ℕ) → is_held v j (drop_socket u i m) ≡ is_open v j (closed u i ps)
held_after u i ps m z h v j =
    is_held-drop_socket v j u i m h.0
    ∙ ap (λ c. c && not (u == v && i == j)) (h.1 v j)
    ∙ sym (is_open-closed v j u i ps)

pub connected_after :
    (u i : ℕ) (ps : Open) (m : UserSockets) (z : ZSet)
    → Agrees ps m z
    → (v : ℕ) → has_user v (drop_socket u i m) ≡ is_connected v (closed u i ps)
connected_after u i ps m z h v =
    has_user-is_connected v (drop_socket u i m) (closed u i ps) (drop_socket-IsMap u i m h.0)
      (λ j. held_after u i ps m z h v j)

-- The last connection of the user was closed.
pub removed :
    (u i : ℕ) (ps : Open) (m : UserSockets) (z : ZSet)
    → has_user u (drop_socket u i m) ≡ false
    → Agrees ps m z
    → Agrees (closed u i ps) (drop_socket u i m) (kept (without (user u) z.items) none)
removed u i ps m z gone h = (
  drop_socket-IsMap u i m h.0,
  held_after u i ps m z h,
  kept-expires (without (user u) z.items),
  λ v. ground (
    arith,
    holds-kept (user v) (without (user u) z.items),
    holds-without u v z.items,
    h.3 v,
    connected_after u i ps m z h u,
    is_connected-closed_other v u i ps,
    gone,
  ),
)

-- Another one is left.
pub kept_online :
    (u i : ℕ) (ps : Open) (m : UserSockets) (z : ZSet)
    → has_user u (drop_socket u i m) ≡ true
    → Agrees ps m z
    → Agrees (closed u i ps) (drop_socket u i m) z
kept_online u i ps m z left h = (
  drop_socket-IsMap u i m h.0,
  held_after u i ps m z h,
  h.2,
  λ v. ground (
    arith,
    h.3 v,
    connected_after u i ps m z h u,
    is_connected-closed_other v u i ps,
    connected_before v u i ps,
    left,
  ),
)

pub live_unexpiring : (now : ℕ) (z : ZSet) → z.expires ≡ none → live_zset now z ≡ z
live_unexpiring now z h = ground (arith, h)
