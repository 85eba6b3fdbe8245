-- ===== src/Team/Admins.antt =====
-- The handlers of teams and groups leave the set of administrators alone.
use wust_algo_tracker.Prelude.{
  ℕ, String, List, ◌≡◌, refl, Bool, true, false, Option, none, some, arith, ◌==◌, if◌then◌else◌,
}
use wust_algo_tracker.Table.Laws.{get-update}
use wust_algo_tracker.Permission.{Ctx, role_admin}
use wust_algo_tracker.User.Db.{User, Group, Db, InviteStatus, GroupInvite, user_key, user_at}
use wust_algo_tracker.User.Tx.{write, return}
use wust_algo_tracker.User.Tx.Preserves.{
  Preserves, preserve_rules, Preserves-write, Preserves-return, Preserves-then,
}
use wust_algo_tracker.User.Service.{signed_in, record_user_operation}
use wust_algo_tracker.Team.Owner.{
  set_group, reset_members, set_owner, delete_group, set_status, ensure_group_owner, pick_owner,
}
use wust_algo_tracker.Team.Admin
use wust_algo_tracker.Team.Members
use wust_algo_tracker.Team.Invites
use wust_algo_tracker.Team.Service
use wust_algo_tracker.Table.{find}

abbrev pub is_admin : Option User → Bool
is_admin none = false
is_admin (some u) = u.role_id == role_admin

-- The administrators are those users for which `a` is true.
abbrev pub AdminsAre : (ℕ → Bool) → Db → Type 0
AdminsAre a db = (k : ℕ) → is_admin (user_at db k) ≡ a k

module _ (a : ℕ → Bool) where
  pub same_users-Admins :
      (g : Db → Db) → ((db : Db) → (g db).users ≡ db.users) → Preserves (AdminsAre a) (write g)
  same_users-Admins g same = Preserves-write (AdminsAre a) g λ db h k. ground (arith, same db, h k)

  pub set_group-Admins : (k g : ℕ) → Preserves (AdminsAre a) (write (set_group k g))
  unfolding set_group
  set_group-Admins k g = Preserves-write (AdminsAre a) _ λ db h j. ground (
    arith,
    h j,
    get-update user_key j (λ u. u.id == k) (λ u. record u { group_id = g }) db.users (λ u. refl),
  )

  reset_members-Admins : (g : ℕ) → Preserves (AdminsAre a) (write (reset_members g))
  unfolding reset_members
  reset_members-Admins g = Preserves-write (AdminsAre a) _ λ db h j. ground (
    arith,
    h j,
    get-update user_key j (λ u. u.group_id == g) (λ u. record u { group_id = 0 }) db.users
        (λ u. refl),
  )

  pub set_owner-Admins : (g k : ℕ) → Preserves (AdminsAre a) (write (set_owner g k))
  unfolding set_owner
  set_owner-Admins g k = same_users-Admins _ λ db. refl

  delete_group-Admins : (g : ℕ) → Preserves (AdminsAre a) (write (delete_group g))
  unfolding delete_group
  delete_group-Admins g = same_users-Admins _ λ db. refl

  set_status-Admins :
      (p : GroupInvite → Bool) (s : InviteStatus) → Preserves (AdminsAre a) (write (set_status p s))
  unfolding set_status
  set_status-Admins p s = same_users-Admins _ λ db. refl

  pick_owner-Admins :
      (group : Group) (u : Option User) → Preserves (AdminsAre a) (pick_owner group u)
  unfolding pick_owner
  pick_owner-Admins group none = Preserves-return (AdminsAre a) group
  pick_owner-Admins group (some u) =
      Preserves-then (AdminsAre a) _ _ (set_owner-Admins _ _) (Preserves-return (AdminsAre a) _)

  ensure_at :
      (b : Bool) (group : Group) (u : Option User) (db : Db)
      → AdminsAre a db
      → AdminsAre a ((if b then return group db else pick_owner group u db).1)
  unfolding return
  ensure_at true group u db h = h
  ensure_at false group u db h = (pick_owner-Admins group u).at db h

  ensure_group_owner-Admins : (group : Group) → Preserves (AdminsAre a) (ensure_group_owner group)
  unfolding ensure_group_owner
  ensure_group_owner-Admins group = record {
    at = λ db h. ensure_at _ group (find (λ u. u.group_id == group.id) db.users) db h;
  }

ruleset admin_writes = (
  same_users-Admins, set_group-Admins, reset_members-Admins, set_owner-Admins, delete_group-Admins,
  set_status-Admins, ensure_group_owner-Admins,
)

module _ (a : ℕ → Bool) where
  create-Admins : (name describe : String) → Preserves (AdminsAre a) (Admin.create name describe)
  unfolding Admin.create
  create-Admins name describe = search (preserve_rules, admin_writes) depth 40

  delete-Admins : (g : ℕ) → Preserves (AdminsAre a) (Admin.delete g)
  unfolding Admin.delete
  delete-Admins g = search (preserve_rules, admin_writes) depth 40

  update-Admins :
      (g : ℕ) (name describe : String) → Preserves (AdminsAre a) (Admin.update g name describe)
  unfolding Admin.update
  update-Admins g name describe = search (preserve_rules, admin_writes) depth 40

  get_with_users-Admins : (g : ℕ) → Preserves (AdminsAre a) (Admin.get_with_users g)
  unfolding Admin.get_with_users
  get_with_users-Admins g = search (preserve_rules, admin_writes) depth 40

  create_team_for_user-Admins :
      (user_id : ℕ) (name avatar describe : String)
      → Preserves (AdminsAre a) (Members.create_team_for_user user_id name avatar describe)
  unfolding Members.create_team_for_user
  create_team_for_user-Admins user_id name avatar describe =
      search (preserve_rules, admin_writes) depth 40

  update_team-Admins :
      (user_id g : ℕ) (name avatar describe : String)
      → Preserves (AdminsAre a) (Members.update_team user_id g name avatar describe)
  unfolding Members.update_team
  update_team-Admins user_id g name avatar describe = search (preserve_rules, admin_writes) depth 40

  remove_team_member-Admins :
      (operator_id member_id : ℕ)
      → Preserves (AdminsAre a) (Members.remove_team_member operator_id member_id)
  unfolding Members.remove_team_member
  remove_team_member-Admins operator_id member_id = search (preserve_rules, admin_writes) depth 40

  transfer_team_owner-Admins :
      (operator_id new_owner_id : ℕ)
      → Preserves (AdminsAre a) (Members.transfer_team_owner operator_id new_owner_id)
  unfolding Members.transfer_team_owner
  transfer_team_owner-Admins operator_id new_owner_id =
      search (preserve_rules, admin_writes) depth 40

  leave_team-Admins : (user_id : ℕ) → Preserves (AdminsAre a) (Members.leave_team user_id)
  unfolding Members.leave_team
  leave_team-Admins user_id = search (preserve_rules, admin_writes) depth 40

  disband_team-Admins : (owner_id : ℕ) → Preserves (AdminsAre a) (Members.disband_team owner_id)
  unfolding Members.disband_team
  disband_team-Admins owner_id = search (preserve_rules, admin_writes) depth 40

  reuse_invite-Admins :
      (g inviter_id invitee_id : ℕ) (existing : Option GroupInvite)
      → Preserves (AdminsAre a) (Invites.reuse_invite g inviter_id invitee_id existing)
  unfolding Invites.reuse_invite
  reuse_invite-Admins g inviter_id invitee_id (some existing) =
      Preserves-return (AdminsAre a) existing
  reuse_invite-Admins g inviter_id invitee_id none = search (preserve_rules, admin_writes) depth 12

  invite_user-Admins :
      (inviter_id invitee_id : ℕ)
      → Preserves (AdminsAre a) (Invites.invite_user inviter_id invitee_id)
  unfolding Invites.invite_user
  invite_user-Admins inviter_id invitee_id =
      search (preserve_rules, admin_writes, reuse_invite-Admins) depth 40

  respond_with-Admins :
      (accept : Bool) (user_id invite_id : ℕ) (invite : GroupInvite)
      → Preserves (AdminsAre a) (Invites.respond_with accept user_id invite_id invite)
  unfolding Invites.respond_with Invites.accept_invite
  respond_with-Admins true user_id invite_id invite = search (preserve_rules, admin_writes) depth 40
  respond_with-Admins false user_id invite_id invite =
      search (preserve_rules, admin_writes) depth 12

  respond_invite-Admins :
      (user_id invite_id : ℕ) (accept : Bool)
      → Preserves (AdminsAre a) (Invites.respond_invite user_id invite_id accept)
  unfolding Invites.respond_invite
  respond_invite-Admins user_id invite_id accept =
      search (preserve_rules, admin_writes, respond_with-Admins) depth 40

  pub signed_in-Admins : (ctx : Ctx) → Preserves (AdminsAre a) (signed_in ctx)
  unfolding signed_in
  signed_in-Admins ctx = search preserve_rules

  pub record_user_operation-Admins :
      (ctx : Ctx) (action target_type : String) (target_id : ℕ)
      → Preserves (AdminsAre a) (record_user_operation ctx action target_type target_id)
  unfolding record_user_operation
  record_user_operation-Admins ctx action target_type target_id = same_users-Admins a _ λ db. refl

ruleset team_admins = (
  create-Admins, delete-Admins, update-Admins, create_team_for_user-Admins, update_team-Admins,
  remove_team_member-Admins, transfer_team_owner-Admins, leave_team-Admins, disband_team-Admins,
  invite_user-Admins, respond_invite-Admins, get_with_users-Admins, signed_in-Admins,
  record_user_operation-Admins,
)

module _ (a : ℕ → Bool) where
  pub create_team-handler-Admins :
      (ctx : Ctx) (name avatar describe : String)
      → Preserves (AdminsAre a) (Service.create_team ctx name avatar describe)
  unfolding Service.create_team
  create_team-handler-Admins ctx name avatar describe =
      search (preserve_rules, team_admins) depth 16

  pub update_team-handler-Admins :
      (ctx : Ctx) (id : ℕ) (name avatar describe : String)
      → Preserves (AdminsAre a) (Service.update_team ctx id name avatar describe)
  unfolding Service.update_team
  update_team-handler-Admins ctx id name avatar describe =
      search (preserve_rules, team_admins) depth 16

  pub invite_team_member-handler-Admins :
      (ctx : Ctx) (invitee_id : ℕ)
      → Preserves (AdminsAre a) (Service.invite_team_member ctx invitee_id)
  unfolding Service.invite_team_member
  invite_team_member-handler-Admins ctx invitee_id = search (preserve_rules, team_admins) depth 16

  pub remove_team_member-handler-Admins :
      (ctx : Ctx) (user_id : ℕ) → Preserves (AdminsAre a) (Service.remove_team_member ctx user_id)
  unfolding Service.remove_team_member
  remove_team_member-handler-Admins ctx user_id = search (preserve_rules, team_admins) depth 16

  pub transfer_team_owner-handler-Admins :
      (ctx : Ctx) (user_id : ℕ) → Preserves (AdminsAre a) (Service.transfer_team_owner ctx user_id)
  unfolding Service.transfer_team_owner
  transfer_team_owner-handler-Admins ctx user_id = search (preserve_rules, team_admins) depth 16

  pub leave_team-handler-Admins : (ctx : Ctx) → Preserves (AdminsAre a) (Service.leave_team ctx)
  unfolding Service.leave_team
  leave_team-handler-Admins ctx = search (preserve_rules, team_admins) depth 16

  pub disband_team-handler-Admins : (ctx : Ctx) → Preserves (AdminsAre a) (Service.disband_team ctx)
  unfolding Service.disband_team
  disband_team-handler-Admins ctx = search (preserve_rules, team_admins) depth 16

  pub respond_team_invite-handler-Admins :
      (ctx : Ctx) (invite_id : ℕ) (accept : Bool)
      → Preserves (AdminsAre a) (Service.respond_team_invite ctx invite_id accept)
  unfolding Service.respond_team_invite
  respond_team_invite-handler-Admins ctx invite_id accept =
      search (preserve_rules, team_admins) depth 16

  pub create_group-handler-Admins :
      (ctx : Ctx) (name describe : String)
      → Preserves (AdminsAre a) (Service.create_group ctx name describe)
  unfolding Service.create_group
  create_group-handler-Admins ctx name describe = search (preserve_rules, team_admins) depth 16

  pub delete_group-handler-Admins :
      (ctx : Ctx) (id : ℕ) → Preserves (AdminsAre a) (Service.delete_group ctx id)
  unfolding Service.delete_group
  delete_group-handler-Admins ctx id = search (preserve_rules, team_admins) depth 16

  pub update_group-handler-Admins :
      (ctx : Ctx) (id : ℕ) (name describe : String)
      → Preserves (AdminsAre a) (Service.update_group ctx id name describe)
  unfolding Service.update_group
  update_group-handler-Admins ctx id name describe = search (preserve_rules, team_admins) depth 16

  pub team_detail-handler-Admins :
      (group_id : ℕ) → Preserves (AdminsAre a) (Service.team_detail group_id)
  unfolding Service.team_detail
  team_detail-handler-Admins group_id = search (preserve_rules, team_admins) depth 16

  pub get_group-handler-Admins :
      (times : List ℕ → Option (ℕ → Option String)) (id : ℕ)
      → Preserves (AdminsAre a) (Service.get_group times id)
  unfolding Service.get_group
  get_group-handler-Admins times id = search (preserve_rules, team_admins) depth 16
