-- ===== src/User.antt =====
-- The user service (app/user): its tables, transactions and components.
pub mod Db
pub mod Tx
pub mod Service
