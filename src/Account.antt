-- ===== src/Account.antt =====
-- User accounts (app/user/internal/data/dal/profile.go): the data layer of profiles, roles and
-- account deletion. Each function is one method of ProfileDal.
pub mod Dal
pub mod Keeps
pub mod Service
pub mod Login
pub mod Valid
pub mod Admins
pub mod Findings
pub mod Edits
