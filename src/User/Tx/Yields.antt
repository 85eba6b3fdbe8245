-- ===== src/User/Tx/Yields.antt =====
-- Postconditions of calls: what holds of the value and the database when a call returns no error.
use wust_algo_tracker.Prelude.{◌≡◌, refl, Bool, true, false, Option, none, some, arith}
use wust_algo_tracker.User.Db.{Db}
use wust_algo_tracker.User.Tx.{
  Error, Result, ok, err, Tx, return, found, read, write, settle, transaction, reject_if, proceed,
  ◌>>=◌, ◌>>◌,
}

abbrev pub Yields : {A : Type 0} → (A → Db → Type 0) → Result A × Db → Type 0
Yields P (ok a, db) = P a db
Yields P (err e, db) = Unit

module _ {A : Type 0} (P : A → Db → Type 0) where
  pub Yields-return : (a : A) (db : Db) → P a db → Yields P (return a db)
  unfolding return
  Yields-return a db h = h

  pub Yields-weaken :
      {Q : A → Db → Type 0} (m : Result A × Db)
      → Yields Q m
      → ((a : A) (after : Db) → Q a after → P a after)
      → Yields P m
  Yields-weaken (ok a, after) h k = k a after h
  Yields-weaken (err e, after) h k = tt

module _ {B : Type 0} (P : B → Db → Type 0) where
  Yields-proceed :
      {A : Type 0} (Q : A → Db → Type 0) (m : Result A × Db) (f : A → Tx B)
      → Yields Q m
      → ((a : A) (after : Db) → Q a after → Yields P (f a after))
      → Yields P (proceed m f)
  unfolding proceed
  Yields-proceed Q (ok a, after) f h k = k a after h
  Yields-proceed Q (err e, after) f h k = tt

  pub Yields-bind :
      {A : Type 0} (Q : A → Db → Type 0) (m : Tx A) (f : A → Tx B) (db : Db)
      → Yields Q (m db)
      → ((a : A) (after : Db) → Q a after → Yields P (f a after))
      → Yields P ((m >>= f) db)
  unfolding ◌>>=◌
  Yields-bind Q m f db h k = Yields-proceed Q (m db) f h k

  pub Yields-found :
      {A : Type 0} (o : Option A) (e : Error) (f : A → Tx B) (db : Db)
      → ((a : A) → o ≡ some a → Yields P (f a db))
      → Yields P ((found o e >>= f) db)
  unfolding ◌>>=◌ found
  Yields-found none e f db k = tt
  Yields-found (some a) e f db k = k a refl

  pub Yields-reject :
      (b : Bool) (e : Error) (rest : Tx B) (db : Db)
      → (b ≡ false → Yields P (rest db))
      → Yields P ((reject_if b e >> rest) db)
  unfolding ◌>>◌ reject_if
  Yields-reject true e rest db k = tt
  Yields-reject false e rest db k = k refl

  pub Yields-read :
      {A : Type 0} (g : Db → A) (f : A → Tx B) (db : Db)
      → Yields P (f (g db) db)
      → Yields P ((read g >>= f) db)
  unfolding ◌>>=◌ read
  Yields-read g f db h = h

  pub Yields-write :
      (g : Db → Db) (rest : Tx B) (db : Db)
      → Yields P (rest (g db))
      → Yields P ((write g >> rest) db)
  unfolding ◌>>◌ write
  Yields-write g rest db h = h

  pub Yields-run :
      {A : Type 0} (m : Tx A) (rest : Tx B) (db : Db)
      → Yields P ((m >>= (λ _. rest)) db)
      → Yields P ((m >> rest) db)
  unfolding ◌>>◌
  Yields-run m rest db h = h

  Yields-settle : (m : Result B × Db) (db : Db) → Yields P m → Yields P (settle db m)
  unfolding settle
  Yields-settle (ok b, after) db h = h
  Yields-settle (err e, after) db h = tt

  pub Yields-transaction :
      (body : Tx B) (db : Db) → Yields P (body db) → Yields P (transaction body db)
  unfolding transaction
  Yields-transaction body db h = Yields-settle (body db) db h

-- What a call has done to the database if it returned an error: nothing.
abbrev pub Unchanged : {A : Type 0} → Db → Result A × Db → Type 0
Unchanged before (ok a, after) = Unit
Unchanged before (err e, after) = after ≡ before

settle-Unchanged : {A : Type 0} (m : Result A × Db) (db : Db) → Unchanged db (settle db m)
unfolding settle
settle-Unchanged (ok a, after) db = tt
settle-Unchanged (err e, after) db = refl

pub transaction-Unchanged :
    {A : Type 0} (body : Tx A) (db : Db) → Unchanged db (transaction body db)
unfolding transaction
transaction-Unchanged body db = settle-Unchanged (body db) db

-- An invariant that holds before a call, after it by `Yields`, and of what an error leaves.
pub keeps_of :
    {A : Type 0} (I : Db → Type 0) (db : Db) (m : Result A × Db)
    → I db
    → Unchanged db m
    → Yields (λ _ after. I after) m
    → I m.1
keeps_of I db (ok a, after) h u y = y
keeps_of I db (err e, after) h u y = ground (arith, h)

pub Yields-last :
    (P : Unit {0} → Db → Type 0) (g : Db → Db) (db : Db) → P tt (g db) → Yields P (write g db)
unfolding write
Yields-last P g db h = h
