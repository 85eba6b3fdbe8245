-- ===== src/Permission/Laws.antt =====
-- What the permission tests admit.
use wust_algo_tracker.Prelude.{ℕ, ◌≡◌, ◌≢◌, ◌↔◌, true, ◌⊎◌, arith}
use wust_algo_tracker.Permission.{role_user, role_admin, role_coach, can_set_user_role}

-- A role may be set exactly by an administrator, on another account that is no administrator's, to
-- user or coach.
pub can_set_user_role_iff :
    (caller caller_role target target_role new_role : ℕ)
    → (can_set_user_role caller caller_role target target_role new_role ≡ true) ↔ (
        (caller_role ≡ role_admin)
        × (caller ≢ target)
        × (target_role ≢ role_admin)
        × ((new_role ≡ role_user) ⊎ (new_role ≡ role_coach)))
unfolding can_set_user_role
can_set_user_role_iff caller caller_role target target_role new_role =
    (λ h. (ground arith, ground arith, ground arith, ground arith), λ h. ground arith)
