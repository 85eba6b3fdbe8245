-- ===== src/Messages/Dal.antt =====
-- MessageDal: sending a message, marking a thread as read, and counting what is unread. A thread's
-- pair key is modelled as its two numbers, and times are left out.
use Prim.Native.String.{◌++◌ as str_append}
use wust_algo_tracker.Prelude.{
  ℕ, suc, ◌+◌, String, Bool, true, false, not, ◌&&◌, ◌||◌, Option, none, some, List, [], ◌∷◌, ◌++◌,
  ◌==◌, ltb, leb, if◌then◌else◌,
}
use wust_algo_tracker.Table.{find, update_where}
use wust_algo_tracker.Text.{trim_space, rune_count, rune_prefix}
use wust_algo_tracker.User.Db.{PairKey, same_pair, Thread, Message, Db, user_at}
use wust_algo_tracker.User.Tx.{
  Tx, return, found, read, write, transaction, ◌>>=◌, ◌>>◌, user_missing,
}

-- messagePair
unfoldable pub message_pair : ℕ → ℕ → PairKey
message_pair user_id other_id =
    if ltb user_id other_id
    then record { lower = user_id; upper = other_id }
    else record { lower = other_id; upper = user_id }

-- messagePreview
unfoldable pub message_preview : String → String
unfolding trim_space rune_count rune_prefix
message_preview content =
    let content' = trim_space content in
    if leb (rune_count content') 80 then content' else str_append (rune_prefix 80 content') "..."

-- The thread of Send: the one that was found, or a new one.
unfoldable pub open_thread : PairKey → Option Thread → Tx Thread
open_thread pair (some thread) = return thread
open_thread pair none = do
  id ← read (λ db. db.next_thread)
  let created : Thread = record {
    id = id;
    pair_key = pair;
    user_a_id = pair.lower;
    user_b_id = pair.upper;
    last_message_id = 0;
    last_message_preview = "";
    last_sender_id = 0;
    unread_a = 0;
    unread_b = 0;
  }
  write (λ db. record db { threads = db.threads ++ created ∷ []; next_thread = suc id })
  return created

-- The updates of Send: the last message, and one more unread message of the receiver.
unfoldable pub touch : Bool → Message → Thread → Thread
unfolding message_preview
touch true m t = record t {
  last_message_id = m.id;
  last_message_preview = message_preview m.content;
  last_sender_id = m.sender_id;
  unread_a = suc t.unread_a;
}
touch false m t = record t {
  last_message_id = m.id;
  last_message_preview = message_preview m.content;
  last_sender_id = m.sender_id;
  unread_b = suc t.unread_b;
}

-- The end of Send, in its thread.
unfoldable pub post : ℕ → ℕ → String → Thread → Tx Message
unfolding touch
post sender_id receiver_id content thread = do
  id ← read (λ db. db.next_message)
  let created : Message = record {
    id = id;
    thread_id = thread.id;
    sender_id = sender_id;
    receiver_id = receiver_id;
    content = content;
    is_read = false;
  }
  write (λ db. record db { messages = db.messages ++ created ∷ []; next_message = suc id })
  write (λ db. record db {
    threads =
        update_where (λ t. t.id == thread.id) (touch (receiver_id == thread.user_a_id) created)
          db.threads;
  })
  return created

-- The query of Send for the thread of a pair.
unfoldable pub thread_of : PairKey → Db → Option Thread
unfolding find
thread_of pair db = find (λ t. same_pair t.pair_key pair) db.threads

-- Send
unfoldable pub send : ℕ → ℕ → String → Tx Message
unfolding message_pair open_thread post thread_of
send sender_id receiver_id content = do
  found (← read (λ db. user_at db receiver_id)) user_missing
  transaction (do
    existing ← read (thread_of (message_pair sender_id receiver_id))
    thread ← open_thread (message_pair sender_id receiver_id) existing
    post sender_id receiver_id content thread)

-- The unread messages of a user in a thread.
abbrev pub is_unread : ℕ → ℕ → Message → Bool
is_unread thread_id user_id m =
    m.thread_id == thread_id && (m.receiver_id == user_id && not m.is_read)

-- The field of MarkThreadRead is set to 0.
unfoldable pub clear_unread : Bool → Thread → Thread
clear_unread true t = record t { unread_a = 0 }
clear_unread false t = record t { unread_b = 0 }

-- The writes of MarkThreadRead: none where there is no thread.
unfoldable pub mark_read : ℕ → Option Thread → Tx (Unit {0})
unfolding clear_unread
mark_read user_id none = return tt
mark_read user_id (some thread) = do
  write (λ db. record db {
    messages =
        update_where (is_unread thread.id user_id) (λ m. record m { is_read = true }) db.messages;
  })
  write (λ db. record db {
    threads =
        update_where (λ t. t.id == thread.id) (clear_unread (thread.user_a_id == user_id))
          db.threads;
  })

-- MarkThreadRead
unfoldable pub mark_thread_read : ℕ → ℕ → Tx (Unit {0})
unfolding message_pair mark_read find
mark_thread_read user_id other_id = transaction (do
  thread ← read (λ db.
      find
        (λ t.
          same_pair t.pair_key (message_pair user_id other_id)
          && (t.user_a_id == user_id || t.user_b_id == user_id))
        db.threads)
  mark_read user_id thread)

-- `SUM(unread_a)` of the threads where the user is the one, and `SUM(unread_b)` where it is the other.
unfoldable pub sum_a : ℕ → List Thread → ℕ
sum_a user_id [] = 0
sum_a user_id (t ∷ ts) = (if t.user_a_id == user_id then t.unread_a else 0) + sum_a user_id ts

unfoldable pub sum_b : ℕ → List Thread → ℕ
sum_b user_id [] = 0
sum_b user_id (t ∷ ts) = (if t.user_b_id == user_id then t.unread_b else 0) + sum_b user_id ts

-- UnreadCount
unfoldable pub unread_count : ℕ → Tx ℕ
unfolding sum_a sum_b
unread_count user_id = read (λ db. sum_a user_id db.threads + sum_b user_id db.threads)
