-- ===== src/User/Db.antt =====
-- The rows of the user service (app/user/internal/data/model) and the database that holds them.
-- Row ids and user ids are natural numbers, and 0 is no row: a request with a negative id finds
-- nothing, as one with an unused id does.
use wust_algo_tracker.Prelude.{ℕ, String, Bool, true, false, Option, none, some, List, ◌==◌, ◌&&◌}
use wust_algo_tracker.Table.{get}

-- model.User, with its embedded gorm.Model reduced to the id.
pub record User : Type 0 where
  pub id : ℕ
  pub username : String
  pub password : String
  pub avatar : String
  pub name : String
  pub email : String
  pub group_id : ℕ
  pub role_id : ℕ
  pub email_enabled : Bool

-- model.Group; `name` is a nullable column.
pub record Group : Type 0 where
  pub id : ℕ
  pub name : Option String
  pub describe : String
  pub avatar : String
  pub owner_id : ℕ

-- The values that the code writes to `group_invites.status`.
pub data InviteStatus : Type 0 where
  pending accepted rejected : InviteStatus

abbrev pub is_pending : InviteStatus → Bool
is_pending pending = true
is_pending _ = false

-- model.GroupInvite
pub record GroupInvite : Type 0 where
  pub id : ℕ
  pub group_id : ℕ
  pub inviter_id : ℕ
  pub invitee_id : ℕ
  pub status : InviteStatus

-- model.OperationLog, without the JSON detail and the time.
pub record OperationLog : Type 0 where
  pub operator_id : ℕ
  pub operator_role : ℕ
  pub action : String
  pub target_type : String
  pub target_id : ℕ

-- The two users of a thread, the smaller id first: what its pair key `a:b` is made of.
pub record PairKey : Type 0 where
  pub lower : ℕ
  pub upper : ℕ

abbrev pub same_pair : PairKey → PairKey → Bool
same_pair p q = p.lower == q.lower && p.upper == q.upper

-- model.DirectMessageThread, without the time of its last message.
pub record Thread : Type 0 where
  pub id : ℕ
  pub pair_key : PairKey
  pub user_a_id : ℕ
  pub user_b_id : ℕ
  pub last_message_id : ℕ
  pub last_message_preview : String
  pub last_sender_id : ℕ
  pub unread_a : ℕ
  pub unread_b : ℕ

-- model.DirectMessage, without its times.
pub record Message : Type 0 where
  pub id : ℕ
  pub thread_id : ℕ
  pub sender_id : ℕ
  pub receiver_id : ℕ
  pub content : String
  pub is_read : Bool

-- The tables, and the next value of each primary-key sequence.
pub record Db : Type 0 where
  pub users : List User
  pub groups : List Group
  pub invites : List GroupInvite
  pub logs : List OperationLog
  pub register_code : Option String  -- the system_configs row of the registration code
  pub next_user : ℕ
  pub next_group : ℕ
  pub next_invite : ℕ
  pub threads : List Thread
  pub messages : List Message
  pub next_thread : ℕ
  pub next_message : ℕ

abbrev pub user_key : User → ℕ
user_key u = u.id

abbrev pub group_key : Group → ℕ
group_key g = g.id

abbrev pub thread_key : Thread → ℕ
thread_key t = t.id

abbrev pub invite_key : GroupInvite → ℕ
invite_key i = i.id

-- `First(&user, id)`, `First(&group, id)`, `First(&invite, id)`
abbrev pub user_at : Db → ℕ → Option User
user_at db k = get user_key k db.users

abbrev pub group_at : Db → ℕ → Option Group
group_at db k = get group_key k db.groups

abbrev pub invite_at : Db → ℕ → Option GroupInvite
invite_at db k = get invite_key k db.invites

-- Whether a user is there, and in this group.
abbrev pub in_group : ℕ → Option User → Bool
in_group g none = false
in_group g (some u) = u.group_id == g

abbrev pub thread_at : Db → ℕ → Option Thread
thread_at db k = get thread_key k db.threads
