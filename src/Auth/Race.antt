-- ===== src/Auth/Race.antt =====
-- Two registrations at a time that want the same name or the same address.
use text.Mathlib.Text.{◌==◌ as str_eq}
use node_chat_api.Prelude.{
  ℕ, String, ◌≡◌, some, none, true, ◌||◌, false, arith, ==_refl, inl, inr, Option-cases,
}
use node_chat_api.Text.{Text}
use node_chat_api.Errors.{duplicate_key}
use node_chat_api.Action.{ok, err}
use node_chat_api.Models.{User}
use node_chat_api.World.{
  stored_name, stored_email, Backend, World, find_user, find_one_user, same_user,
}
use node_chat_api.Auth.{
  Session, register, new_user, insert_user, sign_access_token, issue_refresh_token, fresh_user,
}

module _ ⦃b : Backend⦄ where
  insert_user_blocked :
      (i j : ℕ) (u e : User) (w : World)
      → find_user j w ≡ some e
      → same_user u e ≡ true
      → (str_eq u.username "" || str_eq u.email "") ≡ false
      → insert_user i u w ≡ (err duplicate_key, w)
  unfolding insert_user
  insert_user_blocked i j u e w stored clash full =
      ground (arith, b.users.create-clash i j u e w.users stored clash)

  -- A registration that succeeds has stored the user.
  registered :
      (i t j salt : ℕ) (name email : String) (p : Text) (w : World) (x : Session)
      → (register i t j salt name email p w).0 ≡ ok x
      → find_user i (register i t j salt name email p w).1
        ≡ some (fresh_user i (stored_name name) (stored_email email) (b.crypto.hash salt p) w.now)
  unfolding register new_user insert_user sign_access_token issue_refresh_token
  registered i t j salt name email p w x h =
      let user : User =
        fresh_user i (stored_name name) (stored_email email) (b.crypto.hash salt p) w.now in
      elim (Option-cases (
        find_one_user
          (λ u. str_eq u.username (stored_name name) || str_eq u.email (stored_email email)) w)) [
            | inr (o, e) ↦ absurd (ground (arith, e))
            | inl f ↦ elim (Option-cases (b.users.create i user w.users)) [
              | inl e ↦ absurd (ground (arith, e, f))
              | inr (s, e) ↦
                  ground (arith, e, f, ==_refl i, b.users.find_by_id-create i i user w.users s e)
            ]
          ]

  -- A registration has looked and found no user of its name or address; before it creates its user,
  -- another registration with the same name or the same address, as they are stored, succeeds. The first,
  -- whose own are not empty, fails with
  -- MongoDB's error for duplicates, and leaves the state as the other one did: no second user, no
  -- token, no mail.
  pub new_user-register :
      (i t j salt i' t' j' salt' : ℕ) (name email name' email' : String) (p p' : Text) (w : World)
      (x : Session)
      → (register i' t' j' salt' name' email' p' w).0 ≡ ok x
      → (str_eq (stored_name name) (stored_name name')
          || str_eq (stored_email email) (stored_email email'))
        ≡ true
      → (str_eq (stored_name name) "" || str_eq (stored_email email) "") ≡ false
      → new_user i t j salt name email p none (register i' t' j' salt' name' email' p' w).1
        ≡ (err duplicate_key, (register i' t' j' salt' name' email' p' w).1)
  unfolding new_user
  new_user-register i t j salt i' t' j' salt' name email name' email' p p' w x h same full =
      let w' : World = (register i' t' j' salt' name' email' p' w).1 in
      let mine : User =
        fresh_user i (stored_name name) (stored_email email) (b.crypto.hash salt p) w'.now in
      let theirs : User =
        fresh_user i' (stored_name name') (stored_email email') (b.crypto.hash salt' p') w.now in
      let stored = registered i' t' j' salt' name' email' p' w x h in
      ground (arith, insert_user_blocked i i' mine theirs w' stored same full)
