-- ===== src/Account/Login/Roundtrip.antt =====
-- What a registration, a login and a change of password mean for the next login.
use wust_algo_tracker.Prelude.{
  String, ◌≡◌, refl, Bool, true, false, Option, none, some, List, [], ◌∷◌, ◌++◌, arith, str_eq,
  str_eq_iff, ◌↔◌, inl, inr, Bool-cases,
}
use wust_algo_tracker.Table.{find}
use wust_algo_tracker.User.Db.{User, Db}
use wust_algo_tracker.User.Tx.{ok, read, write, return, proceed, ◌>>=◌, ◌>>◌}
use wust_algo_tracker.Account.Service.{Bcrypt, is_bcrypt_hash, verify_password}
use wust_algo_tracker.Account.Login.{
  registered, logged_in, new_user, insert_user, register, register_checked, login, login_as, rehash,
  validate_register_invite_code, get_register_invite_code,
}

-- What the code relies on of bcrypt: a hash that was made from a password is told apart from a plain
-- password by its prefix, and matches exactly that password among those that can be hashed.
pub record IsBcrypt (bcrypt : Bcrypt) : Type 0 where
  pub tagged :
      (password hash : String) → bcrypt.generate password ≡ some hash → is_bcrypt_hash hash ≡ true
  pub matches :
      (password hash : String)
      → bcrypt.generate password ≡ some hash
      → bcrypt.compare hash password ≡ true

-- A hash of the given password is accepted, and needs no new hash.
pub verify_password-hash :
    (bcrypt : Bcrypt) (password hash : String)
    → IsBcrypt bcrypt
    → bcrypt.generate password ≡ some hash
    → verify_password bcrypt hash password ≡ record { valid = true; needs_rehash = false }
unfolding verify_password
verify_password-hash bcrypt password hash lib e =
    ground (arith, lib.tagged password hash e, lib.matches password hash e)

-- A stored password that is no hash is accepted exactly where it is the candidate, and then asks for
-- a hash; a stored hash never asks for another.
pub verify_password-needs_rehash :
    (bcrypt : Bcrypt) (stored candidate : String)
    → ((verify_password bcrypt stored candidate).needs_rehash ≡ true)
      ↔ ((is_bcrypt_hash stored ≡ false) × (stored ≡ candidate))
unfolding verify_password
verify_password-needs_rehash bcrypt stored candidate = elim (Bool-cases (is_bcrypt_hash stored)) [
  | inl e ↦ (λ h. absurd (ground arith), λ h. ground arith)
  | inr e ↦ (
    λ h. (ground arith, (str_eq_iff stored candidate).0 (ground arith)),
    λ h. ground (arith, (str_eq_iff stored candidate).1 h.1),
  )
]

find-insert :
    (p : User → Bool) (u : User) (rows : List User)
    → find p rows ≡ none
    → p u ≡ true
    → find p (rows ++ u ∷ []) ≡ some u
unfolding find
find-insert p u [] f h = ground arith
find-insert p u (r ∷ rows) f h = ground (arith, find-insert p u rows)

-- A user who registers with the right code and a free name, and whose password can be hashed, is
-- registered where Create makes the row; the next login with that name and password succeeds and gives the token of the new row.
pub register-login :
    (bcrypt : Bcrypt) (sign : User → Option String)
    (code username password name email hash token : String) (db : Db)
    → IsBcrypt bcrypt
    → validate_register_invite_code code (get_register_invite_code db.register_code) ≡ none
    → find (λ u. str_eq u.username username) db.users ≡ none
    → bcrypt.generate password ≡ some hash
    → sign (new_user db.next_user username hash name email) ≡ some token
    → ((register bcrypt none code username password name email db).0 ≡ ok registered)
      × ((login bcrypt sign username password
            (register bcrypt none code username password name email db).1).0
          ≡ ok (logged_in token))
unfolding register register_checked insert_user login login_as rehash read write return proceed
    ◌>>=◌ ◌>>◌
register-login bcrypt sign code username password name email hash token db lib c f g s =
    let found_again =
      find-insert (λ u. str_eq u.username username) (new_user db.next_user username hash name email)
        db.users f ((str_eq_iff username username).1 refl) in
    let accepted = verify_password-hash bcrypt password hash lib g in
    rw (c, f, g) (refl, rw (found_again, accepted, s) refl)
