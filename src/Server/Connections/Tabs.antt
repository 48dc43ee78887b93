-- ===== src/Server/Connections/Tabs.antt =====
-- The map `userSockets` as a set of pairs of a user and a socket.
use node_chat_api.Prelude.{
  ℕ, ◌≡◌, List, [], ◌∷◌, ◌++◌, Bool, true, false, not, ◌&&◌, ◌||◌, any, filter, arith, refl, ◌==◌,
  if◌then◌else◌,
}
use node_chat_api.Server.Connections.{sockets_of, has_user, add_socket, keep_entry, drop_socket}

abbrev pub UserSockets : Type 0
UserSockets = List (ℕ × List ℕ)

abbrev pub contains : ℕ → List ℕ → Bool
contains i ids = any (λ j. j == i) ids

abbrev pub is_held : ℕ → ℕ → UserSockets → Bool
is_held u i m = contains i (sockets_of u m)

abbrev pub is_nonempty : List ℕ → Bool
is_nonempty [] = false
is_nonempty (i ∷ is) = true

-- Keys are distinct, and no set is empty.
abbrev pub IsMap : UserSockets → Type 0
IsMap [] = Unit
IsMap ((u, ids) ∷ m) = (has_user u m ≡ false) × (is_nonempty ids ≡ true) × IsMap m

contains-append :
    (i j : ℕ) (ids : List ℕ) → contains j (ids ++ i ∷ []) ≡ (contains j ids || (i == j))
contains-append i j [] = ground arith
contains-append i j (k ∷ ids) = ground (arith, contains-append i j ids)

contains-filter :
    (i j : ℕ) (ids : List ℕ)
    → contains j (filter (λ k. not (k == i)) ids) ≡ (contains j ids && not (i == j))
contains-filter i j [] = refl
contains-filter i j (k ∷ ids) = ground (arith, contains-filter i j ids)

is_nonempty-append : (i : ℕ) (ids : List ℕ) → is_nonempty (ids ++ i ∷ []) ≡ true
is_nonempty-append i [] = refl
is_nonempty-append i (j ∷ ids) = refl

sockets_absent : (u : ℕ) (m : UserSockets) → has_user u m ≡ false → sockets_of u m ≡ []
sockets_absent u [] h = refl
sockets_absent u ((v, ids) ∷ m) h = ground (arith, sockets_absent u m)

pub has_user-add_socket :
    (v u i : ℕ) (m : UserSockets) → has_user v (add_socket u i m) ≡ (has_user v m || (u == v))
has_user-add_socket v u i [] = ground arith
has_user-add_socket v u i ((k, ids) ∷ m) = ground (arith, has_user-add_socket v u i m)

pub is_held-add_socket :
    (v j u i : ℕ) (m : UserSockets)
    → is_held v j (add_socket u i m) ≡ (is_held v j m || (u == v && i == j))
is_held-add_socket v j u i [] = ground arith
is_held-add_socket v j u i ((k, ids) ∷ m) =
    ground (arith, is_held-add_socket v j u i m, contains-append i j ids)

pub add_socket-IsMap : (u i : ℕ) (m : UserSockets) → IsMap m → IsMap (add_socket u i m)
add_socket-IsMap u i [] h = ground arith
add_socket-IsMap u i ((k, ids) ∷ m) h =
    ground
      (arith, add_socket-IsMap u i m h.2, has_user-add_socket k u i m, is_nonempty-append i ids)

has_user-keep_entry :
    (v k : ℕ) (ids : List ℕ) (m : UserSockets)
    → has_user v m ≡ false
    → (k == v) ≡ false
    → has_user v (keep_entry k ids m) ≡ false
has_user-keep_entry v k [] m h ne = h
has_user-keep_entry v k (j ∷ ids) m h ne = ground arith

keep_entry-IsMap :
    (k : ℕ) (ids : List ℕ) (m : UserSockets)
    → has_user k m ≡ false
    → IsMap m
    → IsMap (keep_entry k ids m)
keep_entry-IsMap k [] m h map = map
keep_entry-IsMap k (j ∷ ids) m h map = (h, refl, map)

sockets_of-keep_entry :
    (v k : ℕ) (ids : List ℕ) (m : UserSockets)
    → has_user k m ≡ false
    → sockets_of v (keep_entry k ids m) ≡ (if k == v then ids else sockets_of v m)
sockets_of-keep_entry v k [] m h = ground (arith, sockets_absent k m h)
sockets_of-keep_entry v k (j ∷ ids) m h = refl

pub has_user-drop_socket :
    (v u i : ℕ) (m : UserSockets) → has_user v m ≡ false → has_user v (drop_socket u i m) ≡ false
has_user-drop_socket v u i [] h = refl
has_user-drop_socket v u i ((k, ids) ∷ m) h = ground (
  arith,
  has_user-drop_socket v u i m,
  has_user-keep_entry v k (filter (λ j. not (j == i)) ids) m,
)

pub drop_socket-IsMap : (u i : ℕ) (m : UserSockets) → IsMap m → IsMap (drop_socket u i m)
drop_socket-IsMap u i [] h = tt
drop_socket-IsMap u i ((k, ids) ∷ m) h = ground (
  arith,
  drop_socket-IsMap u i m h.2,
  keep_entry-IsMap k (filter (λ j. not (j == i)) ids) m h.0 h.2,
  has_user-drop_socket k u i m h.0,
)

pub is_held-drop_socket :
    (v j u i : ℕ) (m : UserSockets)
    → IsMap m
    → is_held v j (drop_socket u i m) ≡ (is_held v j m && not (u == v && i == j))
is_held-drop_socket v j u i [] h = refl
is_held-drop_socket v j u i ((k, ids) ∷ m) h = ground (
  arith,
  is_held-drop_socket v j u i m h.2,
  sockets_of-keep_entry v k (filter (λ j. not (j == i)) ids) m h.0,
  contains-filter i j ids,
  sockets_absent k m h.0,
)

-- A key is there exactly when it holds a socket.
pub has_user-sockets_of :
    (u : ℕ) (m : UserSockets) → IsMap m → has_user u m ≡ is_nonempty (sockets_of u m)
has_user-sockets_of u [] h = refl
has_user-sockets_of u ((k, ids) ∷ m) h = ground (arith, has_user-sockets_of u m h.2)
