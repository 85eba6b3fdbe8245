-- ===== src/User/Tx/Preserves.antt =====
-- Invariants of calls: what held of the database before holds after, whether the call returned a
-- value or an error. One rule for each way to build a call.
use wust_algo_tracker.Prelude.{
  String, ◌≡◌, refl, Bool, true, false, Option, none, some, if◌then◌else◌,
}
use wust_algo_tracker.User.Db.{Db}
use wust_algo_tracker.User.Tx.{
  Status, Error, Result, ok, err, Tx, return, found, read, write, settle, transaction, reject_if,
  proceed, ◌>>=◌, ◌>>◌, wrap_result, wrap, replace_error, wrap_as,
}
use wust_algo_tracker.User.Tx.Yields.{Yields, Unchanged, keeps_of}

pub record Preserves {A : Type 0} (I : Db → Type 0) (m : Tx A) : Type 0 where
  pub at : (db : Db) → I db → I (m db).1

module _ {A : Type 0} (I : Db → Type 0) where
  pub Preserves-return : (a : A) → Preserves I (return a)
  unfolding return
  Preserves-return a = record { at = λ db h. h }

  found_at : (o : Option A) (e : Error) (db : Db) → I db → I (found o e db).1
  unfolding found
  found_at none e db h = h
  found_at (some a) e db h = h

  pub Preserves-found : (o : Option A) (e : Error) → Preserves I (found o e)
  Preserves-found o e = record { at = found_at o e }

  pub Preserves-read : (f : Db → A) → Preserves I (read f)
  unfolding read
  Preserves-read f = record { at = λ db h. h }

  settle_at : (m : Result A × Db) (db : Db) → I db → I m.1 → I (settle db m).1
  unfolding settle
  settle_at (ok a, after) db h k = k
  settle_at (err e, after) db h k = h

  pub Preserves-transaction : (m : Tx A) → Preserves I m → Preserves I (transaction m)
  unfolding transaction
  Preserves-transaction m p = record { at = λ db h. settle_at (m db) db h (p.at db h) }

  pub wrap_at :
      (s : Status) (reason : String) (m : Result A × Db) → I m.1 → I (wrap_result s reason m).1
  unfolding wrap_result
  wrap_at s reason (ok a, after) k = k
  wrap_at s reason (err e, after) k = k

  pub Preserves-wrap :
      (s : Status) (reason : String) (m : Tx A) → Preserves I m → Preserves I (wrap s reason m)
  unfolding wrap
  Preserves-wrap s reason m p = record { at = λ db h. wrap_at s reason (m db) (p.at db h) }

  replace_at : (e : Error) (m : Result A × Db) → I m.1 → I (replace_error e m).1
  unfolding replace_error
  replace_at e (ok a, after) k = k
  replace_at e (err e', after) k = k

  pub Preserves-wrap_as : (e : Error) (m : Tx A) → Preserves I m → Preserves I (wrap_as e m)
  unfolding wrap_as
  Preserves-wrap_as e m p = record { at = λ db h. replace_at e (m db) (p.at db h) }

  pub Preserves-if :
      (b : Bool) (m n : Tx A) → Preserves I m → Preserves I n → Preserves I (if b then m else n)
  Preserves-if true m n p q = p
  Preserves-if false m n p q = q

  -- A test before a call, at one database.
  pub reject_then_at :
      (b : Bool) (e : Error) (m : Tx A) (db : Db)
      → I db
      → I (m db).1
      → I ((reject_if b e >> m) db).1
  unfolding reject_if proceed ◌>>=◌ ◌>>◌
  reject_then_at true e m db h k = h
  reject_then_at false e m db h k = k

  -- What follows a test knows that the test was passed.
  pub Preserves-reject_known :
      (b : Bool) (e : Error) (m : Tx A)
      → (b ≡ false → Preserves I m)
      → Preserves I (reject_if b e >> m)
  unfolding reject_if proceed ◌>>=◌ ◌>>◌
  Preserves-reject_known true e m k = record { at = λ db h. h }
  Preserves-reject_known false e m k = k refl

  pub Preserves-of_Yields :
      (m : Tx A)
      → ((db : Db) → Unchanged db (m db))
      → ((db : Db) → I db → Yields (λ _ after. I after) (m db))
      → Preserves I m
  Preserves-of_Yields m u y = record { at = λ db h. keeps_of I db (m db) h (u db) (y db h) }

module _ (I : Db → Type 0) where
  pub Preserves-write : (g : Db → Db) → ((db : Db) → I db → I (g db)) → Preserves I (write g)
  unfolding write
  Preserves-write g k = record { at = k }

  reject_at : (b : Bool) (e : Error) (db : Db) → I db → I (reject_if b e db).1
  unfolding reject_if
  reject_at true e db h = h
  reject_at false e db h = h

  pub Preserves-reject : (b : Bool) (e : Error) → Preserves I (reject_if b e)
  Preserves-reject b e = record { at = reject_at b e }

module _ {A B : Type 0} (I : Db → Type 0) where
  proceed_at :
      (m : Result A × Db) (f : A → Tx B) → I m.1 → ((a : A) → Preserves I (f a)) → I (proceed m f).1
  unfolding proceed
  proceed_at (ok a, after) f h k = (k a).at after h
  proceed_at (err e, after) f h k = h

  pub Preserves-bind :
      (m : Tx A) (f : A → Tx B)
      → Preserves I m
      → ((a : A) → Preserves I (f a))
      → Preserves I (m >>= f)
  unfolding ◌>>=◌
  Preserves-bind m f p k = record { at = λ db h. proceed_at (m db) f (p.at db h) k }

  pub Preserves-then : (m : Tx A) (n : Tx B) → Preserves I m → Preserves I n → Preserves I (m >> n)
  unfolding ◌>>◌
  Preserves-then m n p q = Preserves-bind m (λ _. n) p (λ _. q)

pub ruleset preserve_rules = (
  Preserves-return, Preserves-found, Preserves-read, Preserves-transaction, Preserves-wrap,
  Preserves-wrap_as, Preserves-if, Preserves-reject, Preserves-bind, Preserves-then,
)
