-- ===== src/Team/Joined.antt =====
-- What RespondInvite of group.go has done when an invitation was accepted.
use wust_algo_tracker.Prelude.{ℕ, ◌≡◌, ◌≢◌, true, ◌&&◌, none, some, arith, ◌==◌}
use wust_algo_tracker.Table.{find}
use wust_algo_tracker.Table.Laws.{find-update_none}
use wust_algo_tracker.User.Db.{GroupInvite, Db, user_at, group_at, in_group, rejected, accepted}
use wust_algo_tracker.User.Tx.Yields.{
  Yields, Yields-found, Yields-reject, Yields-read, Yields-write, Yields-transaction, Yields-last,
  Yields-run,
}
use wust_algo_tracker.Team.Owner.{set_status, is_invite_of}
use wust_algo_tracker.Team.Invites.{respond_with, accept_invite, respond_invite}
use wust_algo_tracker.Team.Outcome.{user-moved, user-put}

-- An invitation that was accepted: the user has joined its team, which is there, and has no pending
-- invitation left; nobody else has moved.
pub record Joined (user_id invite_id : ℕ) (db after : Db) : Type 0 where
  pub invite : GroupInvite
  pub was_pending : find (λ i. i.id == invite_id && is_invite_of user_id i) db.invites ≡ some invite
  pub was_free : in_group 0 (user_at db user_id) ≡ true
  pub team_there : group_at db invite.group_id ≢ none
  pub joined : in_group invite.group_id (user_at after user_id) ≡ true
  pub others : (k : ℕ) → k ≢ user_id → user_at after k ≡ user_at db k
  pub no_invites : find (is_invite_of user_id) after.invites ≡ none

accept_invite-Joined :
    (user_id invite_id : ℕ) (invite : GroupInvite) (db : Db)
    → find (λ i. i.id == invite_id && is_invite_of user_id i) db.invites ≡ some invite
    → Yields (λ _. Joined user_id invite_id db) (accept_invite user_id invite_id invite db)
unfolding accept_invite set_status
accept_invite-Joined user_id invite_id invite db f =
    let P : Unit {0} → Db → Type 0 = λ _. Joined user_id invite_id db in
    Yields-read P _ _ db (
      Yields-found P _ _ _ db λ user at_user. Yields-reject P _ _ _ db λ free.
        Yields-read P _ _ db (
          Yields-run P _ _ db (
            Yields-found P _ _ _ db λ group at_group. Yields-write P _ _ db (
              Yields-write P _ _ _ (
                Yields-last P _ _ (record {
                  invite = invite;
                  was_pending = f;
                  was_free = ground arith;
                  team_there = λ e. ground arith;
                  joined = user-put user_id invite.group_id user db at_user;
                  others = λ k ne. user-moved user_id invite.group_id k db ne;
                  no_invites =
                      find-update_none (is_invite_of user_id) _ _
                        (λ i. record i { status = accepted }) (λ i. record i { status = rejected })
                        _ (λ i. ground arith);
                }))))))

-- Where RespondInvite accepts and returns no error, the invitation was a pending one of that user, who
-- was in no team; the user is then in the team of the invitation, which is there, has no pending
-- invitation left, and nobody else has moved.
pub respond_invite-Joined :
    (user_id invite_id : ℕ) (db : Db)
    → Yields (λ _. Joined user_id invite_id db) (respond_invite user_id invite_id true db)
unfolding respond_invite respond_with
respond_invite-Joined user_id invite_id db =
    let P : Unit {0} → Db → Type 0 = λ _. Joined user_id invite_id db in
    Yields-transaction P _ db (
      Yields-read P _ _ db
        (Yields-found P _ _ _ db λ invite f. accept_invite-Joined user_id invite_id invite db f))
