-- ===== src/User/Tx.antt =====
-- Calls of the data layer: they read and write the database and may return an error. What an
-- unfinished call has written stays, unless a transaction around it rolls it back.
-- That the database itself fails is not modelled, but for Create in Register, whose error is an input.
pub mod Yields
pub mod Preserves
use wust_algo_tracker.Prelude.{String, Bool, true, false, Option, none, some}
use wust_algo_tracker.User.Db.{Db}

-- The HTTP statuses of the errors that the service layer makes.
pub data Status : Type 0 where
  bad_request unauthorized forbidden internal_server : Status

-- The errors: those of the data layer, one for each message; a service error with its reason and
-- message; and a service error whose message is another error's.
pub data Error : Type 0 where
  refused : Status → String → String → Error
  wrapped : Status → String → Error → Error
  user_missing group_missing team_missing : Error
  joined_already not_own_team only_owner_edits : Error
  self_invite inviter_missing no_team_yet only_owner_invites invitee_missing invitee_joined : Error
  self_remove operator_missing only_owner_edits_members member_missing not_in_your_team : Error
  owner_irremovable : Error
  self_transfer only_owner_transfers new_owner_missing new_owner_outside : Error
  no_current_team owner_cannot_leave only_owner_disbands : Error
  invite_missing joined_cannot_accept : Error

pub data Result (A : Type 0) : Type 0 where
  ok : A → Result A
  err : Error → Result A

abbrev pub Tx : Type 0 → Type 0
Tx A = Db → Result A × Db

module _ {A : Type 0} where
  unfoldable pub return : A → Tx A
  return a db = (ok a, db)

  -- A row that was looked up, or the error for its absence.
  unfoldable pub found : Option A → Error → Tx A
  found (some a) e db = (ok a, db)
  found none e db = (err e, db)

  unfoldable pub read : (Db → A) → Tx A
  read f db = (ok (f db), db)

  -- Commit, or roll back to the database of the beginning.
  unfoldable pub settle : Db → Result A × Db → Result A × Db
  settle before (ok a, after) = (ok a, after)
  settle before (err e, after) = (err e, before)

  -- `db.Transaction(body)`
  unfoldable pub transaction : Tx A → Tx A
  unfolding settle
  transaction body db = settle db (body db)

unfoldable pub write : (Db → Db) → Tx (Unit {0})
write f db = (ok tt, f db)

-- `if bad { return e }`
unfoldable pub reject_if : Bool → Error → Tx (Unit {0})
reject_if true e db = (err e, db)
reject_if false e db = (ok tt, db)

-- What follows a call, if it returned no error.
unfoldable pub proceed : {A B : Type 0} → Result A × Db → (A → Tx B) → Result B × Db
proceed (ok a, db) rest = rest a db
proceed (err e, db) rest = (err e, db)

infixl 5 ◌>>=◌ ◌>>◌
unfoldable pub ◌>>=◌ : {A B : Type 0} → Tx A → (A → Tx B) → Tx B
unfolding proceed
◌>>=◌ first rest db = proceed (first db) rest

unfoldable pub ◌>>◌ : {A B : Type 0} → Tx A → Tx B → Tx B
unfolding ◌>>=◌
first >> rest = first >>= λ _. rest

-- `if err != nil { return Status(reason, err.Error()) }`
unfoldable pub wrap_result : {A : Type 0} → Status → String → Result A × Db → Result A × Db
wrap_result status reason (ok a, db) = (ok a, db)
wrap_result status reason (err e, db) = (err (wrapped status reason e), db)

unfoldable pub wrap : {A : Type 0} → Status → String → Tx A → Tx A
unfolding wrap_result
wrap status reason m db = wrap_result status reason (m db)

-- `if err != nil { return other }`
unfoldable pub replace_error : {A : Type 0} → Error → Result A × Db → Result A × Db
replace_error other (ok a, db) = (ok a, db)
replace_error other (err e, db) = (err other, db)

unfoldable pub wrap_as : {A : Type 0} → Error → Tx A → Tx A
unfolding replace_error
wrap_as other m db = replace_error other (m db)
