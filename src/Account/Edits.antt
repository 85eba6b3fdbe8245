-- ===== src/Account/Edits.antt =====
-- The handlers of accounts that do not read whether a user is an administrator leave the set of
-- administrators alone.
use wust_algo_tracker.Prelude.{
  ℕ, String, refl, Bool, true, false, Option, none, some, arith, Option-cases, inl, inr,
}
use wust_algo_tracker.Table.Laws.{get-insert}
use wust_algo_tracker.Permission.{Ctx}
use wust_algo_tracker.User.Db.{User, user_key, user_at}
use wust_algo_tracker.User.Tx.{read, write, return, ◌>>=◌, ◌>>◌}
use wust_algo_tracker.User.Tx.Preserves.{Preserves, preserve_rules, Preserves-return}
use wust_algo_tracker.Team.Admins.{
  AdminsAre, same_users-Admins, set_group-Admins, signed_in-Admins, record_user_operation-Admins,
}
use wust_algo_tracker.Account.Dal
use wust_algo_tracker.Account.Dal.{update_user}
use wust_algo_tracker.Account.Service.{
  Bcrypt, move_group, update_profile, set_email_enabled, store_password, change_password,
}
use wust_algo_tracker.Account.Login.{
  register, register_checked, insert_user, new_user, login, login_as, rehash,
  update_register_invite_code,
}
use wust_algo_tracker.Account.Admins.{update_user-Admins}

module _ (a : ℕ → Bool) where
  update-Admins :
      (user_id : ℕ) (avatar email name : String)
      → Preserves (AdminsAre a) (Dal.update user_id avatar email name)
  unfolding Dal.update
  update-Admins user_id avatar email name = update_user-Admins a user_id _ (λ u. refl) (λ u. refl)

  dal_set_email_enabled-Admins :
      (user_id : ℕ) (enabled : Bool)
      → Preserves (AdminsAre a) (Dal.set_email_enabled user_id enabled)
  unfolding Dal.set_email_enabled
  dal_set_email_enabled-Admins user_id enabled =
      update_user-Admins a user_id _ (λ u. refl) (λ u. refl)

  dal_move_group-Admins : (user_id g : ℕ) → Preserves (AdminsAre a) (Dal.move_group user_id g)
  unfolding Dal.move_group
  dal_move_group-Admins user_id g = search (preserve_rules, set_group-Admins) depth 12

  store-Admins :
      (user_id : ℕ) (hash : String)
      → Preserves (AdminsAre a) (write (update_user user_id (λ u. record u { password = hash })))
  store-Admins user_id hash = update_user-Admins a user_id _ (λ u. refl) (λ u. refl)

  dal_change_password-Admins :
      (user_id : ℕ) (password : String)
      → Preserves (AdminsAre a) (Dal.change_password user_id password)
  unfolding Dal.change_password
  dal_change_password-Admins user_id password = search (preserve_rules, store-Admins) depth 12

  get_by_id-Admins : (user_id : ℕ) → Preserves (AdminsAre a) (Dal.get_by_id user_id)
  unfolding Dal.get_by_id
  get_by_id-Admins user_id = search preserve_rules

  insert_user-Admins :
      (username name email : String) (create_error hash : Option String)
      → Preserves (AdminsAre a) (insert_user username name email create_error hash)
  unfolding insert_user read write return ◌>>=◌ ◌>>◌
  insert_user-Admins username name email create_error none = record { at = λ db h. h }
  insert_user-Admins username name email (some message) (some hash) = record { at = λ db h. h }
  insert_user-Admins username name email none (some hash) = record {
    at = λ db h j. elim (Option-cases (user_at db j)) [
      | inl e ↦ ground (
        arith,
        h j,
        get-insert user_key j (new_user db.next_user username hash name email) db.users,
      )
      | inr (u, e) ↦ ground (
        arith,
        h j,
        get-insert user_key j (new_user db.next_user username hash name email) db.users,
      )
    ];
  }

  register_checked-Admins :
      (bcrypt : Bcrypt) (create_error : Option String) (username password name email : String)
      (message : Option String) (taken : Option User)
      → Preserves
          (AdminsAre a)
          (register_checked bcrypt create_error username password name email message taken)
  unfolding register_checked
  register_checked-Admins bcrypt create_error username password name email (some message) taken =
      Preserves-return (AdminsAre a) _
  register_checked-Admins bcrypt create_error username password name email none (some other) =
      Preserves-return (AdminsAre a) _
  register_checked-Admins bcrypt create_error username password name email none none =
      insert_user-Admins username name email create_error _

  rehash-Admins :
      (user_id : ℕ) (needed : Bool) (hash : Option String)
      → Preserves (AdminsAre a) (rehash user_id needed hash)
  unfolding rehash
  rehash-Admins user_id true (some hash) = store-Admins user_id hash
  rehash-Admins user_id true none = Preserves-return (AdminsAre a) _
  rehash-Admins user_id false hash = Preserves-return (AdminsAre a) _

  login_as-Admins :
      (bcrypt : Bcrypt) (sign : User → Option String) (password : String) (u : Option User)
      → Preserves (AdminsAre a) (login_as bcrypt sign password u)
  unfolding login_as
  login_as-Admins bcrypt sign password none = Preserves-return (AdminsAre a) _
  login_as-Admins bcrypt sign password (some u) = search (preserve_rules, rehash-Admins) depth 12

ruleset account_admins = (
  update-Admins, dal_set_email_enabled-Admins, dal_move_group-Admins, dal_change_password-Admins,
  get_by_id-Admins, signed_in-Admins, record_user_operation-Admins, register_checked-Admins,
  login_as-Admins,
)

module _ (a : ℕ → Bool) where
  pub update_profile-handler-Admins :
      (ctx : Ctx) (user_id : ℕ) (avatar email name : String)
      → Preserves (AdminsAre a) (update_profile ctx user_id avatar email name)
  unfolding update_profile
  update_profile-handler-Admins ctx user_id avatar email name =
      search (preserve_rules, account_admins) depth 12

  pub set_email_enabled-handler-Admins :
      (ctx : Ctx) (user_id : ℕ) (enabled : Bool)
      → Preserves (AdminsAre a) (set_email_enabled ctx user_id enabled)
  unfolding set_email_enabled
  set_email_enabled-handler-Admins ctx user_id enabled =
      search (preserve_rules, account_admins) depth 12

  pub move_group-handler-Admins :
      (ctx : Ctx) (user_id g : ℕ) → Preserves (AdminsAre a) (move_group ctx user_id g)
  unfolding move_group
  move_group-handler-Admins ctx user_id g = search (preserve_rules, account_admins) depth 12

  pub change_password-handler-Admins :
      (bcrypt : Bcrypt) (ctx : Ctx) (user_id : ℕ) (old_password new_password : String)
      → Preserves (AdminsAre a) (change_password bcrypt ctx user_id old_password new_password)
  unfolding change_password store_password
  change_password-handler-Admins bcrypt ctx user_id old_password new_password =
      search (preserve_rules, account_admins) depth 20

  pub update_register_invite_code-handler-Admins :
      (ctx : Ctx) (code : String) → Preserves (AdminsAre a) (update_register_invite_code ctx code)
  unfolding update_register_invite_code
  update_register_invite_code-handler-Admins ctx code =
      search (preserve_rules, same_users-Admins) depth 12

  pub register-handler-Admins :
      (bcrypt : Bcrypt) (create_error : Option String) (code username password name email : String)
      → Preserves (AdminsAre a) (register bcrypt create_error code username password name email)
  unfolding register
  register-handler-Admins bcrypt create_error code username password name email =
      search (preserve_rules, account_admins) depth 12

  pub login-handler-Admins :
      (bcrypt : Bcrypt) (sign : User → Option String) (username password : String)
      → Preserves (AdminsAre a) (login bcrypt sign username password)
  unfolding login
  login-handler-Admins bcrypt sign username password =
      search (preserve_rules, account_admins) depth 12
