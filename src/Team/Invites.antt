-- ===== src/Team/Invites.antt =====
-- InviteUser and RespondInvite of group.go.
use wust_algo_tracker.Prelude.{
  ℕ, suc, Bool, true, false, not, ◌&&◌, Option, none, some, [], ◌∷◌, ◌++◌, ◌==◌,
}
use wust_algo_tracker.Table.{find}
use wust_algo_tracker.User.Db.{
  GroupInvite, pending, accepted, rejected, is_pending, user_at, group_at,
}
use wust_algo_tracker.User.Tx.{
  Tx, return, found, read, write, transaction, reject_if, ◌>>=◌, ◌>>◌, user_missing, team_missing,
  self_invite, inviter_missing, no_team_yet, only_owner_invites, invitee_missing, invitee_joined,
  invite_missing, joined_cannot_accept,
}
use wust_algo_tracker.Team.Owner.{
  can_manage_team, set_group, set_status, ensure_group_owner, is_invite_of,
}

-- The pending invitation of a user to a group.
abbrev pub is_invite_to : ℕ → ℕ → GroupInvite → Bool
is_invite_to g invitee_id i = i.group_id == g && (i.invitee_id == invitee_id && is_pending i.status)

-- The end of InviteUser: the pending invitation that was found, or a new one.
unfoldable pub reuse_invite : ℕ → ℕ → ℕ → Option GroupInvite → Tx GroupInvite
reuse_invite g inviter_id invitee_id (some existing) = return existing
reuse_invite g inviter_id invitee_id none = do
  id ← read (λ db. db.next_invite)
  let created : GroupInvite = record {
    id = id;
    group_id = g;
    inviter_id = inviter_id;
    invitee_id = invitee_id;
    status = pending;
  }
  write (λ db. record db { invites = db.invites ++ created ∷ []; next_invite = suc id })
  return created

-- InviteUser
unfoldable pub invite_user : ℕ → ℕ → Tx GroupInvite
unfolding ensure_group_owner can_manage_team reuse_invite find
invite_user inviter_id invitee_id = do
  reject_if (inviter_id == invitee_id) self_invite
  transaction (do
    inviter ← found (← read (λ db. user_at db inviter_id)) inviter_missing
    reject_if (inviter.group_id == 0) no_team_yet
    group ← found (← read (λ db. group_at db inviter.group_id)) team_missing
    group ← ensure_group_owner group
    reject_if (not (can_manage_team inviter_id group.owner_id)) only_owner_invites
    invitee ← found (← read (λ db. user_at db invitee_id)) invitee_missing
    reject_if (not (invitee.group_id == 0)) invitee_joined
    existing ← read (λ db. find (is_invite_to inviter.group_id invitee_id) db.invites)
    reuse_invite inviter.group_id inviter_id invitee_id existing)

-- The branch of RespondInvite that joins the team.
unfoldable pub accept_invite : ℕ → ℕ → GroupInvite → Tx (Unit {0})
unfolding set_group set_status
accept_invite user_id invite_id invite = do
  user ← found (← read (λ db. user_at db user_id)) user_missing
  reject_if (not (user.group_id == 0)) joined_cannot_accept
  found (← read (λ db. group_at db invite.group_id)) team_missing
  write (set_group user_id invite.group_id)
  write (set_status (λ i. i.id == invite_id) accepted)
  write (set_status (λ i. is_invite_of user_id i && not (i.id == invite_id)) rejected)

-- RespondInvite, once the invitation has been found.
unfoldable pub respond_with : Bool → ℕ → ℕ → GroupInvite → Tx (Unit {0})
unfolding accept_invite set_status
respond_with true user_id invite_id invite = accept_invite user_id invite_id invite
respond_with false user_id invite_id invite = write (set_status (λ i. i.id == invite_id) rejected)

-- RespondInvite
unfoldable pub respond_invite : ℕ → ℕ → Bool → Tx (Unit {0})
unfolding respond_with find
respond_invite user_id invite_id accept = transaction (do
  invite ←
      found (← read (λ db. find (λ i. i.id == invite_id && is_invite_of user_id i) db.invites))
        invite_missing
  respond_with accept user_id invite_id invite)
