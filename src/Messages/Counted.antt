-- ===== src/Messages/Counted.antt =====
-- The unread counters of the threads count the unread messages: what holds of the threads and
-- messages between two calls, and that each write keeps it.
use mathlib.Core.Option
use wust_algo_tracker.Prelude.{
  ℕ, suc, ◌≤◌, ◌<◌, ◌≡◌, refl, Bool, true, false, ◌&&◌, none, some, List, [], ◌∷◌, ◌++◌, ◌⊎◌, inl,
  inr, arith, ◌==◌, Option-cases, if◌then◌else◌,
}
use wust_algo_tracker.Table.{update_where, count_where}
use wust_algo_tracker.Table.Laws.{get-insert, get-key, get-update}
use wust_algo_tracker.Table.Distinct.{Distinct, insert-Distinct, update-Distinct}
use wust_algo_tracker.User.Db.{Thread, Message, Db, thread_key, thread_at}
use wust_algo_tracker.Messages.Dal.{is_unread, touch, clear_unread}

-- The unread messages of a user in a thread.
abbrev pub unread_of : ℕ → ℕ → Db → ℕ
unread_of k user_id db = count_where (is_unread k user_id) db.messages

-- A thread is between two users, the smaller id first, and each of its counters is the number of
-- unread messages in it to that user; no message is in a thread that is not there yet.
pub record Counted (db : Db) : Type 0 where
  pub paired :
      (k : ℕ) (t : Thread)
      → thread_at db k ≡ some t
      → (t.pair_key ≡ record { lower = t.user_a_id; upper = t.user_b_id })
        × (t.user_a_id < t.user_b_id)
  pub counted_a :
      (k : ℕ) (t : Thread) → thread_at db k ≡ some t → t.unread_a ≡ unread_of k t.user_a_id db
  pub counted_b :
      (k : ℕ) (t : Thread) → thread_at db k ≡ some t → t.unread_b ≡ unread_of k t.user_b_id db
  pub fresh : (k : ℕ) → db.next_thread ≤ k → thread_at db k ≡ none
  pub unused : (k user_id : ℕ) → db.next_thread ≤ k → unread_of k user_id db ≡ 0
  pub distinct : Distinct thread_key db.threads

module _ {R : Type 0} where
  pub count-insert :
      (p : R → Bool) (r : R) (rows : List R)
      → count_where p (rows ++ r ∷ [])
        ≡ (if p r then suc (count_where p rows) else count_where p rows)
  unfolding count_where
  count-insert p r [] = refl
  count-insert p r (s ∷ rows) = ground (arith, count-insert p r rows)

pub count-read :
    (k user_id j u : ℕ) (ms : List Message)
    → count_where
        (is_unread j u)
        (update_where (is_unread k user_id) (λ m. record m { is_read = true }) ms)
      ≡ (if (j == k && u == user_id) then 0 else count_where (is_unread j u) ms)
unfolding count_where update_where
count-read k user_id j u [] = ground arith
count-read k user_id j u (m ∷ ms) = ground (arith, count-read k user_id j u ms)

-- A new thread.
pub open-Counted :
    (t : Thread) (db : Db)
    → Counted db
    → t.id ≡ db.next_thread
    → t.pair_key ≡ record { lower = t.user_a_id; upper = t.user_b_id }
    → t.user_a_id < t.user_b_id
    → t.unread_a ≡ 0
    → t.unread_b ≡ 0
    → Counted (record db { threads = db.threads ++ t ∷ []; next_thread = suc db.next_thread })
open-Counted t db c same pair lt za zb = record {
  paired = λ k s e. ground (arith, c.paired k s, get-insert thread_key k t db.threads);
  counted_a = λ k s e.
      ground (arith, c.counted_a k s, c.unused k t.user_a_id, get-insert thread_key k t db.threads);
  counted_b = λ k s e.
      ground (arith, c.counted_b k s, c.unused k t.user_b_id, get-insert thread_key k t db.threads);
  fresh = λ k l. ground (arith, c.fresh k, get-insert thread_key k t db.threads);
  unused = λ k u l. ground (arith, c.unused k u);
  distinct =
      insert-Distinct thread_key t db.threads c.distinct (ground (arith, c.fresh db.next_thread));
}

-- What an update of Send leaves of a thread, and what it does to its counters.
record Touched (b : Bool) (m : Message) (t : Thread) (t' : Thread) : Type 0 where
  same_id : t'.id ≡ t.id
  same_pair : t'.pair_key ≡ t.pair_key
  same_a : t'.user_a_id ≡ t.user_a_id
  same_b : t'.user_b_id ≡ t.user_b_id
  count_a : t'.unread_a ≡ (if b then suc t.unread_a else t.unread_a)
  count_b : t'.unread_b ≡ (if b then t.unread_b else suc t.unread_b)

touch-Touched : (b : Bool) (m : Message) (t : Thread) → Touched b m t (touch b m t)
unfolding touch
touch-Touched true m t = record {
  same_id = refl;
  same_pair = refl;
  same_a = refl;
  same_b = refl;
  count_a = refl;
  count_b = refl;
}
touch-Touched false m t = record {
  same_id = refl;
  same_pair = refl;
  same_a = refl;
  same_b = refl;
  count_a = refl;
  count_b = refl;
}

-- One message more, in a thread between its sender and its receiver.
pub post-Counted :
    (k : ℕ) (t : Thread) (m : Message) (n : ℕ) (db : Db)
    → Counted db
    → thread_at db k ≡ some t
    → m.thread_id ≡ k
    → m.is_read ≡ false
    → (m.receiver_id ≡ t.user_a_id) ⊎ (m.receiver_id ≡ t.user_b_id)
    → Counted (record db {
      messages = db.messages ++ m ∷ [];
      next_message = n;
      threads = update_where (λ s. s.id == k) (touch (m.receiver_id == t.user_a_id) m) db.threads;
    })
post-Counted k t m n db c at here unread inside =
    let f : Thread → Thread = touch (m.receiver_id == t.user_a_id) m in
    let same : (s : Thread) → thread_key (f s) ≡ thread_key s =
      λ s. (touch-Touched (m.receiver_id == t.user_a_id) m s).same_id in
    let look : (j : ℕ)
        → thread_at (record db { threads = update_where (λ s. s.id == k) f db.threads }) j
          ≡ Option.map (λ s. if s.id == k then f s else s) (thread_at db j) =
      λ j. get-update thread_key j (λ s. s.id == k) f db.threads same in
    record {
      paired = λ j s e. elim (Option-cases (thread_at db j)) [
        | inl o ↦ ground (arith, look j)
        | inr (r, o) ↦
            ground (arith, look j, c.paired j r o, touch-Touched (m.receiver_id == t.user_a_id) m r)
      ];
      counted_a = λ j s e. elim (Option-cases (thread_at db j)) [
        | inl o ↦ ground (arith, look j)
        | inr (r, o) ↦ ground (
          arith,
          look j,
          c.paired j r o,
          c.counted_a j r o,
          get-key thread_key j r db.threads o,
          touch-Touched (m.receiver_id == t.user_a_id) m r,
          count-insert (is_unread j s.user_a_id) m db.messages,
        )
      ];
      counted_b = λ j s e. elim (Option-cases (thread_at db j)) [
        | inl o ↦ ground (arith, look j)
        | inr (r, o) ↦ ground (
          arith,
          look j,
          c.paired j r o,
          c.counted_b j r o,
          get-key thread_key j r db.threads o,
          touch-Touched (m.receiver_id == t.user_a_id) m r,
          count-insert (is_unread j s.user_b_id) m db.messages,
        )
      ];
      fresh = λ j l. ground (arith, look j, c.fresh j);
      unused = λ j u l.
          ground (arith, c.fresh j l, c.unused j u l, count-insert (is_unread j u) m db.messages);
      distinct = update-Distinct thread_key (λ s. s.id == k) f db.threads same c.distinct;
    }

-- What MarkThreadRead leaves of a thread, and what it does to its counters.
record Cleared (b : Bool) (t : Thread) (t' : Thread) : Type 0 where
  same_id : t'.id ≡ t.id
  same_pair : t'.pair_key ≡ t.pair_key
  same_a : t'.user_a_id ≡ t.user_a_id
  same_b : t'.user_b_id ≡ t.user_b_id
  count_a : t'.unread_a ≡ (if b then 0 else t.unread_a)
  count_b : t'.unread_b ≡ (if b then t.unread_b else 0)

clear_unread-Cleared : (b : Bool) (t : Thread) → Cleared b t (clear_unread b t)
unfolding clear_unread
clear_unread-Cleared true t = record {
  same_id = refl;
  same_pair = refl;
  same_a = refl;
  same_b = refl;
  count_a = refl;
  count_b = refl;
}
clear_unread-Cleared false t = record {
  same_id = refl;
  same_pair = refl;
  same_a = refl;
  same_b = refl;
  count_a = refl;
  count_b = refl;
}

-- A thread is marked as read by one of its two users.
pub read-Counted :
    (k user_id : ℕ) (t : Thread) (db : Db)
    → Counted db
    → thread_at db k ≡ some t
    → (user_id ≡ t.user_a_id) ⊎ (user_id ≡ t.user_b_id)
    → Counted (record db {
      messages = update_where (is_unread k user_id) (λ m. record m { is_read = true }) db.messages;
      threads = update_where (λ s. s.id == k) (clear_unread (t.user_a_id == user_id)) db.threads;
    })
read-Counted k user_id t db c at inside =
    let f : Thread → Thread = clear_unread (t.user_a_id == user_id) in
    let same : (s : Thread) → thread_key (f s) ≡ thread_key s =
      λ s. (clear_unread-Cleared (t.user_a_id == user_id) s).same_id in
    let look : (j : ℕ)
        → thread_at (record db { threads = update_where (λ s. s.id == k) f db.threads }) j
          ≡ Option.map (λ s. if s.id == k then f s else s) (thread_at db j) =
      λ j. get-update thread_key j (λ s. s.id == k) f db.threads same in
    record {
      paired = λ j s e. elim (Option-cases (thread_at db j)) [
        | inl o ↦ ground (arith, look j)
        | inr (r, o) ↦
            ground (arith, look j, c.paired j r o, clear_unread-Cleared (t.user_a_id == user_id) r)
      ];
      counted_a = λ j s e. elim (Option-cases (thread_at db j)) [
        | inl o ↦ ground (arith, look j)
        | inr (r, o) ↦ ground (
          arith,
          look j,
          c.paired j r o,
          c.counted_a j r o,
          get-key thread_key j r db.threads o,
          clear_unread-Cleared (t.user_a_id == user_id) r,
          count-read k user_id j s.user_a_id db.messages,
        )
      ];
      counted_b = λ j s e. elim (Option-cases (thread_at db j)) [
        | inl o ↦ ground (arith, look j)
        | inr (r, o) ↦ ground (
          arith,
          look j,
          c.paired j r o,
          c.counted_b j r o,
          get-key thread_key j r db.threads o,
          clear_unread-Cleared (t.user_a_id == user_id) r,
          count-read k user_id j s.user_b_id db.messages,
        )
      ];
      fresh = λ j l. ground (arith, look j, c.fresh j);
      unused = λ j u l. ground (arith, c.unused j u l, count-read k user_id j u db.messages);
      distinct = update-Distinct thread_key (λ s. s.id == k) f db.threads same c.distinct;
    }
