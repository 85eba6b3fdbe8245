-- ===== src/Messages/Requests.antt =====
-- The requests that write threads and messages, and what holds of the unread counters after them.
use wust_algo_tracker.Prelude.{ℕ, String}
use wust_algo_tracker.Permission.{Ctx}
use wust_algo_tracker.User.Db.{Db}
use wust_algo_tracker.Messages.Service
use wust_algo_tracker.Messages.Counted.{Counted}
use wust_algo_tracker.Messages.Keeps.{
  send_handler-Counted, mark_read_handler-Counted, broadcast-Counted,
}

pub data Request : Type 0 where
  send : ℕ → String → Request
  mark_read : ℕ → Request
  broadcast : String → Request

-- The database after a request, whether it was refused or not.
unfoldable pub handle : Ctx → Request → Db → Db
handle ctx (send receiver_id content) db = (Service.send ctx receiver_id content db).1
handle ctx (mark_read user_id) db = (Service.mark_read ctx user_id db).1
handle ctx (broadcast content) db = (Service.broadcast ctx content db).1

-- Every request keeps the counters of unread messages right: in each thread, the counter of each of
-- its two users is the number of messages to that user which are not marked as read. It does so
-- where the request is refused too, and where a broadcast breaks off.
pub handle-Counted : (ctx : Ctx) (r : Request) (db : Db) → Counted db → Counted (handle ctx r db)
unfolding handle
handle-Counted ctx (send receiver_id content) db c =
    (send_handler-Counted ctx receiver_id content).at db c
handle-Counted ctx (mark_read user_id) db c = (mark_read_handler-Counted ctx user_id).at db c
handle-Counted ctx (broadcast content) db c = (broadcast-Counted ctx content).at db c
