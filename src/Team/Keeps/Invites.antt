-- ===== src/Team/Keeps/Invites.antt =====
-- Inviting a user and answering an invitation keep the invariant.
use mathlib.Core.Path.{subst, sym}
use wust_algo_tracker.Prelude.{ℕ, ◌≡◌, refl, Bool, true, false, Option, none, some, inr, arith}
use wust_algo_tracker.Table.Distinct.{Distinct}
use wust_algo_tracker.User.Db.{User, GroupInvite, Db, user_key, user_at, rejected, accepted}
use wust_algo_tracker.User.Tx.Yields.{
  Yields, Yields-return, Yields-bind, Yields-found, Yields-reject, Yields-read, Yields-write,
  Yields-transaction, Yields-last, Yields-run,
}
use wust_algo_tracker.Team.Invites.{
  reuse_invite, respond_with, invite_user, accept_invite, respond_invite,
}
use wust_algo_tracker.Team.Ensured.{Ensured, ensure-Ensured}
use wust_algo_tracker.Team.Valid.{IsValid, OwnsNothing, set_group-IsValid}
use wust_algo_tracker.Team.Keeps.{Keeps, set_status-IsValid}

invites-IsValid :
    (db after : Db)
    → IsValid db
    → after.users ≡ db.users
    → after.groups ≡ db.groups
    → after.next_group ≡ db.next_group
    → after.next_user ≡ db.next_user
    → IsValid after
invites-IsValid db after v us gs n nu = record {
  owned = λ g r e z. ground (arith, v.owned g r);
  grouped = λ j u e z. ground (arith, v.grouped j u);
  zero_free = ground (arith, v.zero_free);
  fresh = λ g l. ground (arith, v.fresh g);
  next_pos = ground (arith, v.next_pos);
  user_fresh = λ j l. ground (arith, v.user_fresh j);
  distinct = subst (Distinct user_key) (sym us) v.distinct;
}

reuse_invite-IsValid :
    (g inviter_id invitee_id : ℕ) (o : Option GroupInvite) (db : Db)
    → IsValid db
    → Yields Keeps (reuse_invite g inviter_id invitee_id o db)
unfolding reuse_invite
reuse_invite-IsValid g inviter_id invitee_id (some existing) db v =
    Yields-return Keeps existing db v
reuse_invite-IsValid g inviter_id invitee_id none db v = Yields-read Keeps _ _ db (
    Yields-write Keeps _ _ db
      (Yields-return Keeps _ _ (invites-IsValid db _ v refl refl refl refl)))

pub invite_user-IsValid :
    (inviter_id invitee_id : ℕ) (db : Db)
    → IsValid db
    → Yields Keeps (invite_user inviter_id invitee_id db)
unfolding invite_user
invite_user-IsValid inviter_id invitee_id db v = Yields-reject Keeps _ _ _ db λ different.
    Yields-transaction Keeps _ db (
      Yields-read Keeps _ _ db (
        Yields-found Keeps _ _ _ db λ inviter at_inviter. Yields-reject Keeps _ _ _ db λ in_team.
          Yields-read Keeps _ _ db (
            Yields-found Keeps _ _ _ db λ group at_group.
              Yields-bind Keeps (Ensured db inviter.group_id) _ _ db
                (ensure-Ensured inviter.group_id group db v at_group)
                λ owned after e. Yields-reject Keeps _ _ _ after λ may.
                  Yields-read Keeps _ _ after (
                    Yields-found Keeps _ _ _ after λ invitee at_invitee.
                      Yields-reject Keeps _ _ _ after λ free. Yields-read Keeps _ _ after (
                        reuse_invite-IsValid inviter.group_id inviter_id invitee_id _ after
                          e.valid)))))

-- A user in no group is the owner of nothing.
free-OwnsNothing :
    (k : ℕ) (u : User) (db : Db)
    → IsValid db
    → user_at db k ≡ some u
    → u.group_id ≡ 0
    → OwnsNothing k db
free-OwnsNothing k u db v a z = λ h r e nz same. ground (arith, v.owned h r, v.zero_free)

accept_invite-IsValid :
    (user_id invite_id : ℕ) (invite : GroupInvite) (db : Db)
    → IsValid db
    → Yields Keeps (accept_invite user_id invite_id invite db)
unfolding accept_invite
accept_invite-IsValid user_id invite_id invite db v = Yields-read Keeps _ _ db (
    Yields-found Keeps _ _ _ db λ user at_user. Yields-reject Keeps _ _ _ db λ free.
      Yields-read Keeps _ _ db (
        Yields-run Keeps _ _ db (
          Yields-found Keeps _ _ _ db λ group at_group. Yields-write Keeps _ _ db (
            Yields-write Keeps _ _ _ (
              Yields-last Keeps _ _ (
                set_status-IsValid _ rejected _ (
                  set_status-IsValid _ accepted _ (
                    set_group-IsValid user_id invite.group_id db v
                      (free-OwnsNothing user_id user db v at_user (ground arith))
                      (inr (ground arith))))))))))

respond_with-IsValid :
    (accept : Bool) (user_id invite_id : ℕ) (invite : GroupInvite) (db : Db)
    → IsValid db
    → Yields Keeps (respond_with accept user_id invite_id invite db)
unfolding respond_with
respond_with-IsValid true user_id invite_id invite db v =
    accept_invite-IsValid user_id invite_id invite db v
respond_with-IsValid false user_id invite_id invite db v =
    Yields-last Keeps _ db (set_status-IsValid _ rejected db v)

pub respond_invite-IsValid :
    (user_id invite_id : ℕ) (accept : Bool) (db : Db)
    → IsValid db
    → Yields Keeps (respond_invite user_id invite_id accept db)
unfolding respond_invite
respond_invite-IsValid user_id invite_id accept db v = Yields-transaction Keeps _ db (
    Yields-read Keeps _ _ db (
      Yields-found Keeps _ _ _ db
        λ invite at_invite. respond_with-IsValid accept user_id invite_id invite db v))
