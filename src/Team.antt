-- ===== src/Team.antt =====
-- Teams (app/user/internal/data/dal/group.go and team_rules.go): the data layer of groups, their
-- owners and invitations. Each function is one method of GroupDal; `transaction` is the code's.
-- The Redis keys user:<id>:profile that the methods delete are read nowhere, and are left out.
pub mod Owner
pub mod Admin
pub mod Members
pub mod Invites
pub mod Valid
pub mod Ensured
pub mod Outcome
pub mod Joined
pub mod Success
pub mod Keeps
pub mod Preserves
pub mod Admins
pub mod Service
