-- ===== src/Messages/Keeps.antt =====
-- The methods of MessageDal and the handlers of messages keep the unread counters right.
use wust_algo_tracker.Prelude.{
  ℕ, suc, ◌<◌, String, ◌≡◌, ◌≢◌, refl, Bool, ◌&&◌, ◌||◌, Option, none, some, List, [], ◌∷◌, ◌⊎◌,
  inl, inr, arith, ◌==◌, Bool-cases,
}
use wust_algo_tracker.Table.{find}
use wust_algo_tracker.Table.Laws.{get-insert, find_sound}
use wust_algo_tracker.Table.Distinct.{get-find}
use wust_algo_tracker.Permission.{Ctx}
use wust_algo_tracker.User.Db.{same_pair, Thread, Db, thread_key, thread_at}
use wust_algo_tracker.User.Tx.{Result, read, write, return, ◌>>=◌, ◌>>◌}
use wust_algo_tracker.User.Tx.Preserves.{
  Preserves, preserve_rules, Preserves-write, Preserves-return, Preserves-then, Preserves-bind,
  Preserves-transaction, Preserves-wrap, Preserves-reject_known,
}
use wust_algo_tracker.User.Service.{signed_in, record_user_operation}
use wust_algo_tracker.Account.Dal.{get_by_id}
use wust_algo_tracker.Messages.Dal
use wust_algo_tracker.Messages.Dal.{message_pair, open_thread, post, thread_of}
use wust_algo_tracker.Messages.Service
use wust_algo_tracker.Messages.Counted.{Counted, open-Counted, post-Counted, read-Counted}

-- The pair of two different users has both of them, the smaller one first.
pub message_pair-ordered :
    (a b : ℕ)
    → a ≢ b
    → ((message_pair a b).lower < (message_pair a b).upper)
      × (message_pair a b ≡ message_pair b a)
      × (((b ≡ (message_pair a b).lower) × (a ≡ (message_pair a b).upper))
          ⊎ ((a ≡ (message_pair a b).lower) × (b ≡ (message_pair a b).upper)))
unfolding message_pair
message_pair-ordered a b ne = ground arith

post-Counted_at :
    (sender_id receiver_id : ℕ) (content : String) (thread : Thread) (db : Db)
    → Counted db
    → thread_at db thread.id ≡ some thread
    → (receiver_id ≡ thread.user_a_id) ⊎ (receiver_id ≡ thread.user_b_id)
    → Counted (post sender_id receiver_id content thread db).1
unfolding post read write return ◌>>=◌ ◌>>◌
post-Counted_at sender_id receiver_id content thread db c at inside =
    post-Counted thread.id thread _ (suc db.next_message) db c at refl refl inside

send_in-Counted :
    (sender_id receiver_id : ℕ) (content : String) (existing : Option Thread) (db : Db)
    → Counted db
    → sender_id ≢ receiver_id
    → thread_of (message_pair sender_id receiver_id) db ≡ existing
    → Counted
        ((open_thread (message_pair sender_id receiver_id) existing
            >>= post sender_id receiver_id content)
          db).1
unfolding open_thread read write return thread_of ◌>>=◌ ◌>>◌
send_in-Counted sender_id receiver_id content none db c ne f =
    let t : Thread = record {
      id = db.next_thread;
      pair_key = message_pair sender_id receiver_id;
      user_a_id = (message_pair sender_id receiver_id).lower;
      user_b_id = (message_pair sender_id receiver_id).upper;
      last_message_id = 0;
      last_message_preview = "";
      last_sender_id = 0;
      unread_a = 0;
      unread_b = 0;
    } in
    post-Counted_at sender_id receiver_id content t _
      (open-Counted t db c refl refl (message_pair-ordered sender_id receiver_id ne).0 refl refl)
      (ground (arith, get-insert thread_key db.next_thread t db.threads, c.fresh db.next_thread))
      (ground (arith, (message_pair-ordered sender_id receiver_id ne).2))
send_in-Counted sender_id receiver_id content (some t) db c ne f =
    let p = message_pair sender_id receiver_id in
    let at : thread_at db t.id ≡ some t =
      get-find thread_key (λ s. same_pair s.pair_key p) t db.threads c.distinct f in
    post-Counted_at sender_id receiver_id content t db c at (
      ground (
        arith,
        c.paired t.id t at,
        find_sound (λ s. same_pair s.pair_key p) t db.threads f,
        (message_pair-ordered sender_id receiver_id ne).2,
      ))

-- Sending a message to another user, whether it succeeds or not, keeps the unread counters right.
pub send-Counted :
    (sender_id receiver_id : ℕ) (content : String)
    → sender_id ≢ receiver_id
    → Preserves Counted (Dal.send sender_id receiver_id content)
unfolding Dal.send
send-Counted sender_id receiver_id content ne =
    Preserves-bind Counted _ _ (search preserve_rules) λ user.
      Preserves-then Counted _ _ (search preserve_rules) (
        Preserves-transaction Counted _ (record {
          at = λ db c.
              unfold read ◌>>=◌ in send_in-Counted sender_id receiver_id content _ db c ne refl;
        }))

mark_read-Counted :
    (user_id other_id : ℕ) (thread : Option Thread) (db : Db)
    → Counted db
    → find
        (λ t.
          same_pair t.pair_key (message_pair user_id other_id)
          && (t.user_a_id == user_id || t.user_b_id == user_id))
        db.threads
      ≡ thread
    → Counted (Dal.mark_read user_id thread db).1
unfolding Dal.mark_read read write return ◌>>=◌ ◌>>◌
mark_read-Counted user_id other_id none db c f = c
mark_read-Counted user_id other_id (some t) db c f =
    let p : Thread → Bool = λ t.
      same_pair t.pair_key (message_pair user_id other_id)
      && (t.user_a_id == user_id || t.user_b_id == user_id) in
    read-Counted t.id user_id t db c (get-find thread_key p t db.threads c.distinct f)
      (ground (arith, find_sound p t db.threads f))

-- Marking a thread as read keeps the unread counters right.
pub mark_thread_read-Counted :
    (user_id other_id : ℕ) → Preserves Counted (Dal.mark_thread_read user_id other_id)
unfolding Dal.mark_thread_read
mark_thread_read-Counted user_id other_id =
    Preserves-transaction Counted _
      (record { at = λ db c. unfold read ◌>>=◌ in mark_read-Counted user_id other_id _ db c refl })

-- Handlers that leave the threads and the messages alone.
log-Counted :
    (ctx : Ctx) (action target_type : String) (target_id : ℕ)
    → Preserves Counted (record_user_operation ctx action target_type target_id)
unfolding record_user_operation
log-Counted ctx action target_type target_id = Preserves-write Counted _ λ db c. record {
  paired = c.paired;
  counted_a = c.counted_a;
  counted_b = c.counted_b;
  fresh = c.fresh;
  unused = c.unused;
  distinct = c.distinct;
}

signed_in-Counted : (ctx : Ctx) → Preserves Counted (signed_in ctx)
unfolding signed_in
signed_in-Counted ctx = search preserve_rules

from_result-Counted : {A : Type 0} (r : Result A) → Preserves Counted (Service.from_result r)
unfolding Service.from_result
from_result-Counted r = record { at = λ db c. c }

get_by_id-Counted : (user_id : ℕ) → Preserves Counted (get_by_id user_id)
unfolding get_by_id
get_by_id-Counted user_id = search preserve_rules

unread_count-Counted : (user_id : ℕ) → Preserves Counted (Dal.unread_count user_id)
unfolding Dal.unread_count
unread_count-Counted user_id = search preserve_rules

ruleset counted_calls = (
  log-Counted, signed_in-Counted, from_result-Counted, get_by_id-Counted, unread_count-Counted,
  mark_thread_read-Counted,
)

-- Send to oneself is refused, so the two users of a thread differ.
pub send_handler-Counted :
    (ctx : Ctx) (receiver_id : ℕ) (content : String)
    → Preserves Counted (Service.send ctx receiver_id content)
unfolding Service.send
send_handler-Counted ctx receiver_id content =
    Preserves-bind Counted _ _ (search (preserve_rules, counted_calls)) λ current.
      Preserves-then Counted _ _ (search preserve_rules) (
        Preserves-reject_known Counted _ _ _ λ other.
          Preserves-bind Counted _ _ (search counted_calls) λ content'.
            Preserves-wrap Counted _ _ _
              (send-Counted current.user_id receiver_id content' (ground arith)))

pub mark_read_handler-Counted :
    (ctx : Ctx) (user_id : ℕ) → Preserves Counted (Service.mark_read ctx user_id)
unfolding Service.mark_read
mark_read_handler-Counted ctx user_id = search (preserve_rules, counted_calls) depth 16

send_all-Counted :
    (sender_id : ℕ) (content : String) (ids : List ℕ)
    → Preserves Counted (Service.send_all sender_id content ids)
unfolding Service.send_all
send_all-Counted sender_id content [] = Preserves-return Counted 0
send_all-Counted sender_id content (id ∷ ids) = elim (Bool-cases (id == sender_id)) [
  | inl e ↦ rw e (send_all-Counted sender_id content ids)
  | inr e ↦ rw e (
      Preserves-then Counted _ _
        (Preserves-wrap Counted _ _ _ (send-Counted sender_id id content (ground arith)))
        (Preserves-bind Counted _ _ (send_all-Counted sender_id content ids)
          λ sent. Preserves-return Counted (suc sent)))
]

-- A broadcast, finished or broken off, keeps the unread counters right.
pub broadcast-Counted :
    (ctx : Ctx) (content : String) → Preserves Counted (Service.broadcast ctx content)
unfolding Service.broadcast
broadcast-Counted ctx content = search (preserve_rules, counted_calls, send_all-Counted) depth 20
