-- ===== src/Account/Valid.antt =====
-- The handlers of accounts keep the invariant. MoveGroup does so only where the user owns no group
-- and the group is there.
use wust_algo_tracker.Prelude.{
  ℕ, suc, String, Bool, true, false, ◌++◌, ◌∷◌, [], ◌≡◌, refl, Option, none, some, ◌⊎◌, arith,
}
use wust_algo_tracker.Table.Laws.{get-insert}
use wust_algo_tracker.Table.Distinct.{insert-Distinct}
use wust_algo_tracker.Permission.{Ctx}
use wust_algo_tracker.User.Db.{User, Db, user_key, user_at, group_at}
use wust_algo_tracker.User.Tx.{user_missing, read, write, found, return, wrap, ◌>>=◌, ◌>>◌}
use wust_algo_tracker.User.Tx.Yields.{transaction-Unchanged}
use wust_algo_tracker.User.Tx.Preserves.{
  Preserves, preserve_rules, Preserves-write, Preserves-of_Yields, Preserves-bind, Preserves-read,
  Preserves-then, Preserves-return, reject_then_at, wrap_at,
}
use wust_algo_tracker.Team.Owner.{set_group}
use wust_algo_tracker.Team.Valid.{IsValid, OwnsNothing, set_group-IsValid, is_some}
use wust_algo_tracker.Team.Service.Valid.{service_calls}
use wust_algo_tracker.Account.Dal
use wust_algo_tracker.Account.Keeps.{update_user-IsValid, delete_user-IsValid}
use wust_algo_tracker.Account.Service.{
  Bcrypt, update_profile, set_email_enabled, store_password, change_password, move_group,
  delete_user, set_user_role,
}
use wust_algo_tracker.Account.Login.{
  register, register_checked, insert_user, new_user, login, login_as, rehash,
  update_register_invite_code,
}

get_by_id-Preserves : (user_id : ℕ) → Preserves IsValid (Dal.get_by_id user_id)
unfolding Dal.get_by_id
get_by_id-Preserves user_id = search preserve_rules

update-Preserves :
    (user_id : ℕ) (avatar email name : String)
    → Preserves IsValid (Dal.update user_id avatar email name)
unfolding Dal.update
update-Preserves user_id avatar email name =
    Preserves-write IsValid _ λ db v. update_user-IsValid user_id _ db (λ u. refl) (λ u. refl) v

set_role_id-Preserves : (user_id role_id : ℕ) → Preserves IsValid (Dal.set_role_id user_id role_id)
unfolding Dal.set_role_id
set_role_id-Preserves user_id role_id =
    Preserves-write IsValid _ λ db v. update_user-IsValid user_id _ db (λ u. refl) (λ u. refl) v

set_email_enabled-Preserves :
    (user_id : ℕ) (enabled : Bool) → Preserves IsValid (Dal.set_email_enabled user_id enabled)
unfolding Dal.set_email_enabled
set_email_enabled-Preserves user_id enabled =
    Preserves-write IsValid _ λ db v. update_user-IsValid user_id _ db (λ u. refl) (λ u. refl) v

change_password-Preserves :
    (user_id : ℕ) (password : String) → Preserves IsValid (Dal.change_password user_id password)
unfolding Dal.change_password
change_password-Preserves user_id password =
    Preserves-bind IsValid _ _ (Preserves-read IsValid _) λ user.
      Preserves-then IsValid _ _
        (Preserves-write IsValid _
          λ db v. update_user-IsValid user_id _ db (λ u. refl) (λ u. refl) v)
        (search preserve_rules)

delete_user-Preserves : (user_id : ℕ) → Preserves IsValid (Dal.delete_user user_id)
delete_user-Preserves user_id =
    Preserves-of_Yields IsValid _ (λ db. unfold Dal.delete_user in transaction-Unchanged _ db)
      (delete_user-IsValid user_id)

ruleset account_calls = (
  get_by_id-Preserves, update-Preserves, set_role_id-Preserves, set_email_enabled-Preserves,
  change_password-Preserves, delete_user-Preserves,
)

pub update_profile-IsValid :
    (ctx : Ctx) (user_id : ℕ) (avatar email name : String)
    → Preserves IsValid (update_profile ctx user_id avatar email name)
unfolding update_profile
update_profile-IsValid ctx user_id avatar email name =
    search (preserve_rules, account_calls) depth 12

pub set_email_enabled-IsValid :
    (ctx : Ctx) (user_id : ℕ) (enabled : Bool)
    → Preserves IsValid (set_email_enabled ctx user_id enabled)
unfolding set_email_enabled
set_email_enabled-IsValid ctx user_id enabled = search (preserve_rules, account_calls) depth 12

store_password-IsValid :
    (bcrypt : Bcrypt) (ctx : Ctx) (user_id : ℕ) (new_password : String)
    → Preserves IsValid (store_password bcrypt ctx user_id new_password)
unfolding store_password
store_password-IsValid bcrypt ctx user_id new_password =
    search (preserve_rules, service_calls, account_calls) depth 12

pub change_password-IsValid :
    (bcrypt : Bcrypt) (ctx : Ctx) (user_id : ℕ) (old_password new_password : String)
    → Preserves IsValid (change_password bcrypt ctx user_id old_password new_password)
unfolding change_password
change_password-IsValid bcrypt ctx user_id old_password new_password =
    search (preserve_rules, service_calls, account_calls, store_password-IsValid) depth 16

pub delete_user-handler-IsValid :
    (ctx : Ctx) (user_id : ℕ) → Preserves IsValid (delete_user ctx user_id)
unfolding delete_user
delete_user-handler-IsValid ctx user_id =
    search (preserve_rules, service_calls, account_calls) depth 12

pub set_user_role-IsValid :
    (ctx : Ctx) (user_id role_id : ℕ) → Preserves IsValid (set_user_role ctx user_id role_id)
unfolding set_user_role
set_user_role-IsValid ctx user_id role_id =
    search (preserve_rules, service_calls, account_calls) depth 16

-- The code is not part of the invariant.
write_code-Preserves :
    (code : Option String) → Preserves IsValid (write (λ db. record db { register_code = code }))
write_code-Preserves code = Preserves-write IsValid _ λ db v. record {
  owned = v.owned;
  grouped = v.grouped;
  zero_free = v.zero_free;
  fresh = v.fresh;
  next_pos = v.next_pos;
  user_fresh = v.user_fresh;
  distinct = v.distinct;
}

pub update_register_invite_code-IsValid :
    (ctx : Ctx) (code : String) → Preserves IsValid (update_register_invite_code ctx code)
unfolding update_register_invite_code
update_register_invite_code-IsValid ctx code =
    search (preserve_rules, write_code-Preserves) depth 12

-- A new account has the next id, and is in no group.
abbrev with_user : User → Db → Db
with_user u db = record db { users = db.users ++ u ∷ []; next_user = suc db.next_user }

with_user-IsValid :
    (u : User) (db : Db)
    → u.id ≡ db.next_user
    → u.group_id ≡ 0
    → IsValid db
    → IsValid (with_user u db)
with_user-IsValid u db same free v = record {
  owned = λ g r e z. ground (arith, v.owned g r, get-insert user_key r.owner_id u db.users);
  grouped = λ j w e z. ground (arith, v.grouped j w, get-insert user_key j u db.users);
  zero_free = v.zero_free;
  fresh = v.fresh;
  next_pos = v.next_pos;
  user_fresh = λ j l. ground (arith, v.user_fresh j, get-insert user_key j u db.users);
  distinct =
      insert-Distinct user_key u db.users v.distinct (ground (arith, v.user_fresh db.next_user));
}

insert_user-IsValid :
    (username name email : String) (create_error hash : Option String)
    → Preserves IsValid (insert_user username name email create_error hash)
unfolding insert_user read write return ◌>>=◌ ◌>>◌
insert_user-IsValid username name email create_error none = record { at = λ db v. v }
insert_user-IsValid username name email (some message) (some hash) = record { at = λ db h. h }
insert_user-IsValid username name email none (some hash) = record {
  at = λ db v. with_user-IsValid (new_user db.next_user username hash name email) db refl refl v;
}

register_checked-IsValid :
    (bcrypt : Bcrypt) (create_error : Option String) (username password name email : String)
    (message : Option String) (taken : Option User)
    → Preserves IsValid
        (register_checked bcrypt create_error username password name email message taken)
unfolding register_checked
register_checked-IsValid bcrypt create_error username password name email (some message) taken =
    Preserves-return IsValid _
register_checked-IsValid bcrypt create_error username password name email none (some other) =
    Preserves-return IsValid _
register_checked-IsValid bcrypt create_error username password name email none none =
    insert_user-IsValid username name email create_error _

pub register-IsValid :
    (bcrypt : Bcrypt) (create_error : Option String) (code username password name email : String)
    → Preserves IsValid (register bcrypt create_error code username password name email)
unfolding register
register-IsValid bcrypt create_error code username password name email =
    search (preserve_rules, register_checked-IsValid) depth 12

rehash-IsValid :
    (user_id : ℕ) (needed : Bool) (hash : Option String)
    → Preserves IsValid (rehash user_id needed hash)
unfolding rehash
rehash-IsValid user_id true (some hash) =
    Preserves-write IsValid _ λ db v. update_user-IsValid user_id _ db (λ u. refl) (λ u. refl) v
rehash-IsValid user_id true none = Preserves-return IsValid _
rehash-IsValid user_id false hash = Preserves-return IsValid _

login_as-IsValid :
    (bcrypt : Bcrypt) (sign : User → Option String) (password : String) (u : Option User)
    → Preserves IsValid (login_as bcrypt sign password u)
unfolding login_as
login_as-IsValid bcrypt sign password none = Preserves-return IsValid _
login_as-IsValid bcrypt sign password (some u) = search (preserve_rules, rehash-IsValid) depth 12

pub login-IsValid :
    (bcrypt : Bcrypt) (sign : User → Option String) (username password : String)
    → Preserves IsValid (login bcrypt sign username password)
unfolding login
login-IsValid bcrypt sign username password = search (preserve_rules, login_as-IsValid) depth 12

-- Where MoveGroup keeps the invariant.
abbrev pub MoveAllowed : ℕ → ℕ → Db → Type 0
MoveAllowed user_id g db = OwnsNothing user_id db × ((g ≡ 0) ⊎ (is_some (group_at db g) ≡ true))

checked : (user : Option User) → Preserves IsValid (found user user_missing >> return tt)
checked user = search preserve_rules

move_group_at :
    (user_id g : ℕ) (db : Db)
    → IsValid db
    → MoveAllowed user_id g db
    → IsValid (Dal.move_group user_id g db).1
unfolding Dal.move_group read write ◌>>=◌ ◌>>◌
move_group_at user_id g db v m =
    (checked (user_at db user_id)).at (set_group user_id g db)
      (set_group-IsValid user_id g db v m.0 m.1)

pub move_group-IsValid :
    (ctx : Ctx) (user_id g : ℕ) (db : Db)
    → IsValid db
    → MoveAllowed user_id g db
    → IsValid (move_group ctx user_id g db).1
unfolding move_group wrap
move_group-IsValid ctx user_id g db v m =
    reject_then_at IsValid _ _ _ db v
      (wrap_at IsValid _ _ (Dal.move_group user_id g db) (move_group_at user_id g db v m))
