-- ===== src/Team/Success.antt =====
-- When the methods of group.go return no error, and what they have then done.
use mathlib.Core.Path.{subst}
use wust_algo_tracker.Prelude.{ℕ, ◌≡◌, ◌≢◌, true, ◌&&◌, some, arith, ◌==◌}
use wust_algo_tracker.Table.{find}
use wust_algo_tracker.Table.Laws.{get-key}
use wust_algo_tracker.User.Db.{User, Group, GroupInvite, Db, user_key, user_at, group_at}
use wust_algo_tracker.User.Tx.{
  Result, ok, err, read, write, return, found, proceed, reject_if, transaction, settle, ◌>>=◌, ◌>>◌,
}
use wust_algo_tracker.User.Tx.Yields.{Yields}
use wust_algo_tracker.Team.Owner.{can_manage_team, ensure_group_owner, is_invite_of}
use wust_algo_tracker.Team.Members.{remove_team_member, disband_team}
use wust_algo_tracker.Team.Invites.{respond_invite, respond_with, accept_invite}
use wust_algo_tracker.Team.Valid.{IsValid}
use wust_algo_tracker.Team.Outcome.{
  Disbanded, disband_team-Disbanded, Removed, remove_team_member-Removed,
}
use wust_algo_tracker.Team.Joined.{Joined, respond_invite-Joined}

-- A call that returns a value has done what it yields.
done :
    {A : Type 0} (P : A → Db → Type 0) (m : Result A × Db) (a : A)
    → Yields P m
    → m.0 ≡ ok a
    → (m.0 ≡ ok a) × P a m.1
done P (ok b, after) a y e = let same : b ≡ a = cc in (e, subst (λ c. P c after) same y)
done P (err x, after) a y e = absurd (cc)

disbands :
    (owner_id : ℕ) (u : User) (r : Group) (db : Db)
    → user_at db owner_id ≡ some u
    → u.group_id ≢ 0
    → group_at db u.group_id ≡ some r
    → r.owner_id ≡ owner_id
    → owner_id ≢ 0
    → (disband_team owner_id db).0 ≡ ok tt
unfolding disband_team ensure_group_owner can_manage_team read write return found proceed reject_if
    transaction settle ◌>>=◌ ◌>>◌
disbands owner_id u r db a in_team at own nz = ground arith

-- Where the invariant holds, the owner of a team, whose id is not 0, can disband it; then the team is
-- gone, has no member and no pending invitation, and the other groups are unchanged.
pub disband_team-succeeds :
    (owner_id : ℕ) (u : User) (r : Group) (db : Db)
    → IsValid db
    → user_at db owner_id ≡ some u
    → u.group_id ≢ 0
    → group_at db u.group_id ≡ some r
    → r.owner_id ≡ owner_id
    → owner_id ≢ 0
    → ((disband_team owner_id db).0 ≡ ok tt) × Disbanded owner_id db (disband_team owner_id db).1
disband_team-succeeds owner_id u r db v a in_team at own nz =
    done (λ _. Disbanded owner_id db) (disband_team owner_id db) tt
      (disband_team-Disbanded owner_id db v) (disbands owner_id u r db a in_team at own nz)

removes :
    (operator_id member_id : ℕ) (u m : User) (r : Group) (db : Db)
    → user_at db operator_id ≡ some u
    → u.group_id ≢ 0
    → group_at db u.group_id ≡ some r
    → r.owner_id ≡ operator_id
    → operator_id ≢ 0
    → user_at db member_id ≡ some m
    → m.group_id ≡ u.group_id
    → member_id ≢ operator_id
    → (remove_team_member operator_id member_id db).0 ≡ ok tt
unfolding remove_team_member ensure_group_owner can_manage_team read write return found proceed
    reject_if transaction settle ◌>>=◌ ◌>>◌
removes operator_id member_id u m r db a in_team at own nz b same ne =
    ground (arith, get-key user_key member_id m db.users)

-- Where the invariant holds, the owner of a team, whose id is not 0, can remove every other member of
-- it; the member is then in no team and has no pending invitation, and nobody else's row changed.
pub remove_team_member-succeeds :
    (operator_id member_id : ℕ) (u m : User) (r : Group) (db : Db)
    → IsValid db
    → user_at db operator_id ≡ some u
    → u.group_id ≢ 0
    → group_at db u.group_id ≡ some r
    → r.owner_id ≡ operator_id
    → operator_id ≢ 0
    → user_at db member_id ≡ some m
    → m.group_id ≡ u.group_id
    → member_id ≢ operator_id
    → ((remove_team_member operator_id member_id db).0 ≡ ok tt)
      × Removed operator_id member_id db (remove_team_member operator_id member_id db).1
remove_team_member-succeeds operator_id member_id u m r db v a in_team at own nz b same ne =
    done (λ _. Removed operator_id member_id db) (remove_team_member operator_id member_id db) tt
      (remove_team_member-Removed operator_id member_id db v)
      (removes operator_id member_id u m r db a in_team at own nz b same ne)

responds :
    (user_id invite_id : ℕ) (u : User) (i : GroupInvite) (r : Group) (db : Db)
    → find (λ i. i.id == invite_id && is_invite_of user_id i) db.invites ≡ some i
    → user_at db user_id ≡ some u
    → u.group_id ≡ 0
    → group_at db i.group_id ≡ some r
    → (respond_invite user_id invite_id true db).0 ≡ ok tt
unfolding respond_invite respond_with accept_invite read write return found proceed reject_if
    transaction settle ◌>>=◌ ◌>>◌
responds user_id invite_id u i r db f a free at = rw f (ground arith)

-- A user in no team can accept each pending invitation to a group that is there: the user is then in
-- the invitation's team, has no pending invitation left, and nobody else moved.
pub respond_invite-succeeds :
    (user_id invite_id : ℕ) (u : User) (i : GroupInvite) (r : Group) (db : Db)
    → find (λ i. i.id == invite_id && is_invite_of user_id i) db.invites ≡ some i
    → user_at db user_id ≡ some u
    → u.group_id ≡ 0
    → group_at db i.group_id ≡ some r
    → ((respond_invite user_id invite_id true db).0 ≡ ok tt)
      × Joined user_id invite_id db (respond_invite user_id invite_id true db).1
respond_invite-succeeds user_id invite_id u i r db f a free at =
    done (λ _. Joined user_id invite_id db) (respond_invite user_id invite_id true db) tt
      (respond_invite-Joined user_id invite_id db) (responds user_id invite_id u i r db f a free at)
