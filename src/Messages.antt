-- ===== src/Messages.antt =====
-- Direct messages: the methods of MessageDal (app/user/internal/data/dal/message.go) that write, its
-- unread counter, and the handlers of app/user/internal/service/message.go over them.
pub mod Dal
pub mod Service
pub mod Counted
pub mod Keeps
pub mod Requests
