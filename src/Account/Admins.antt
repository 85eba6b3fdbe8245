-- ===== src/Account/Admins.antt =====
-- The handlers of accounts leave the set of administrators alone: none is made, none is demoted and
-- none is deleted.
use wust_algo_tracker.Prelude.{
  ℕ, ◌≡◌, refl, Bool, false, Option, none, some, arith, ◌==◌, Option-cases, inl, inr,
}
use wust_algo_tracker.Table.{delete_where}
use wust_algo_tracker.Table.Laws.{get-update, get-key, get-delete}
use wust_algo_tracker.Permission.{Ctx, role_admin, can_delete_user, can_set_user_role}
use wust_algo_tracker.User.Db.{User, Group, Db, user_key, user_at}
use wust_algo_tracker.User.Tx.{
  Tx, Error, read, write, found, proceed, wrap_as, replace_error, ◌>>=◌, user_missing,
}
use wust_algo_tracker.User.Tx.Preserves.{
  Preserves, preserve_rules, Preserves-write, Preserves-return, Preserves-then, Preserves-bind,
  Preserves-wrap, Preserves-wrap_as, Preserves-reject, Preserves-reject_known,
  Preserves-transaction,
}
use wust_algo_tracker.Team.Admins.{
  AdminsAre, same_users-Admins, set_owner-Admins, signed_in-Admins, record_user_operation-Admins,
}
use wust_algo_tracker.Account.Dal
use wust_algo_tracker.Account.Dal.{update_user}
use wust_algo_tracker.Account.Service.{delete_user, set_user_role}

module _ (a : ℕ → Bool) where
  -- A change of a user that leaves the id and the role alone.
  pub update_user-Admins :
      (k : ℕ) (f : User → User)
      → ((u : User) → (f u).id ≡ u.id)
      → ((u : User) → (f u).role_id ≡ u.role_id)
      → Preserves (AdminsAre a) (write (update_user k f))
  unfolding update_user
  update_user-Admins k f ids roles = Preserves-write (AdminsAre a) _ λ db h j.
      elim (Option-cases (user_at db j)) [
        | inl e ↦ ground (arith, h j, get-update user_key j (λ u. u.id == k) f db.users ids)
        | inr (u, e) ↦
            ground (arith, h j, roles u, get-update user_key j (λ u. u.id == k) f db.users ids)
      ]

  -- A change of a user that is no administrator, and does not become one.
  update_other-Admins :
      (k : ℕ) (f : User → User)
      → ((u : User) → (f u).id ≡ u.id)
      → ((u : User) → ((f u).role_id == role_admin) ≡ false)
      → a k ≡ false
      → Preserves (AdminsAre a) (write (update_user k f))
  unfolding update_user
  update_other-Admins k f ids roles none_now = Preserves-write (AdminsAre a) _ λ db h j.
      elim (Option-cases (user_at db j)) [
        | inl e ↦ ground (arith, h j, get-update user_key j (λ u. u.id == k) f db.users ids)
        | inr (u, e) ↦ ground (
          arith,
          h j,
          roles u,
          get-key user_key j u db.users,
          get-update user_key j (λ u. u.id == k) f db.users ids,
        )
      ]

  get_by_id_at :
      {B : Type 0} (o : Option User) (user_id : ℕ) (e : Error) (f : User → Tx B) (db : Db)
      → user_at db user_id ≡ o
      → AdminsAre a db
      → ((t : User) → (t.role_id == role_admin) ≡ a user_id → Preserves (AdminsAre a) (f t))
      → AdminsAre a (proceed (replace_error e (found o user_missing db)) f).1
  unfolding proceed replace_error found
  get_by_id_at none user_id e f db o h k = h
  get_by_id_at (some t) user_id e f db o h k = (k t (ground (arith, h user_id))).at db h

  -- What follows a look at a user knows whether that is an administrator.
  Preserves-target :
      {B : Type 0} (user_id : ℕ) (e : Error) (f : User → Tx B)
      → ((t : User) → (t.role_id == role_admin) ≡ a user_id → Preserves (AdminsAre a) (f t))
      → Preserves (AdminsAre a) (wrap_as e (Dal.get_by_id user_id) >>= f)
  unfolding wrap_as ◌>>=◌ Dal.get_by_id read proceed
  Preserves-target user_id e f k = record {
    at = λ db h. get_by_id_at (user_at db user_id) user_id e f db refl h k;
  }

  drop_user-Admins :
      (k : ℕ)
      → a k ≡ false
      → Preserves
          (AdminsAre a)
          (write (λ db. record db { users = delete_where (λ u. u.id == k) db.users }))
  drop_user-Admins k none_now =
      Preserves-write (AdminsAre a) _
        λ db h j. ground (arith, get-delete user_key j k db.users, h j)

  hand_over-Admins :
      (user_id g : ℕ) (group : Option Group)
      → Preserves (AdminsAre a) (Dal.hand_over user_id g group)
  unfolding Dal.hand_over
  hand_over-Admins user_id g none = Preserves-return (AdminsAre a) tt
  hand_over-Admins user_id g (some group) = search (preserve_rules, set_owner-Admins)

  dal_delete_user-Admins :
      (user_id : ℕ) → a user_id ≡ false → Preserves (AdminsAre a) (Dal.delete_user user_id)
  unfolding Dal.delete_user
  dal_delete_user-Admins user_id none_now = Preserves-transaction (AdminsAre a) _ (
      Preserves-bind (AdminsAre a) _ _ (search preserve_rules) λ found_user.
        Preserves-bind (AdminsAre a) _ _ (search preserve_rules) λ user.
          Preserves-bind (AdminsAre a) _ _ (search preserve_rules) λ group.
            Preserves-then (AdminsAre a) _ _ (hand_over-Admins user_id _ _) (
              Preserves-then (AdminsAre a) _ _ (same_users-Admins a _ λ db. refl)
                (drop_user-Admins user_id none_now)))

  pub delete_user-handler-Admins :
      (ctx : Ctx) (user_id : ℕ) → Preserves (AdminsAre a) (delete_user ctx user_id)
  unfolding delete_user can_delete_user
  delete_user-handler-Admins ctx user_id =
      Preserves-bind (AdminsAre a) _ _ (signed_in-Admins a ctx) λ current.
        Preserves-then (AdminsAre a) _ _ (Preserves-reject (AdminsAre a) _ _) (
          Preserves-target user_id _ _ λ target same.
            Preserves-reject_known (AdminsAre a) _ _ _ λ passed.
              Preserves-then (AdminsAre a) _ _
                (Preserves-wrap (AdminsAre a) _ _ _ (dal_delete_user-Admins user_id (ground arith)))
                (record_user_operation-Admins a _ _ _ _))

  pub set_user_role-handler-Admins :
      (ctx : Ctx) (user_id role_id : ℕ)
      → Preserves (AdminsAre a) (set_user_role ctx user_id role_id)
  unfolding set_user_role can_set_user_role Dal.set_role_id
  set_user_role-handler-Admins ctx user_id role_id = Preserves-target _ _ _ λ caller known.
      Preserves-then (AdminsAre a) _ _ (Preserves-reject (AdminsAre a) _ _) (
        Preserves-then (AdminsAre a) _ _ (Preserves-reject (AdminsAre a) _ _) (
          Preserves-target user_id _ _ λ target same.
            Preserves-reject_known (AdminsAre a) _ _ _ λ passed.
              Preserves-then (AdminsAre a) _ _
                (Preserves-wrap_as (AdminsAre a) _ _
                  (update_other-Admins user_id _ (λ u. refl) (λ u. ground arith) (ground arith)))
                (record_user_operation-Admins a _ _ _ _)))
