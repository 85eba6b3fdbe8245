-- ===== src/Tests/Sample.antt =====
-- A small database: an administrator, a team of two with its owner, and an invited user.
use wust_algo_tracker.Prelude.{
  ℕ, String, ◌≡◌, refl, true, Option, none, some, [], ◌∷◌, arith, str_eq, str_eq_iff, ◌&&◌,
  if◌then◌else◌, sym,
}
use mathlib.Core.Path.{subst}
use wust_algo_tracker.Table.{get, count_where}
use wust_algo_tracker.Permission.{Ctx}
use wust_algo_tracker.User.Db.{User, Group, GroupInvite, pending, Db}
use wust_algo_tracker.Team.Valid.{IsValid}
use wust_algo_tracker.Account.Service.{Bcrypt, is_bcrypt_hash}
use wust_algo_tracker.Account.Login.Roundtrip.{IsBcrypt}
use wust_algo_tracker.Messages.Counted.{Counted}

abbrev pub user_of : ℕ → String → ℕ → ℕ → User
user_of id username g role = record {
  id = id;
  username = username;
  password = "pw";
  avatar = "";
  name = username;
  email = "";
  group_id = g;
  role_id = role;
  email_enabled = true;
}

abbrev pub root : User
root = user_of 1 "root" 0 1

abbrev pub olga : User
olga = user_of 2 "olga" 1 0

abbrev pub mia : User
mia = user_of 3 "mia" 1 0

abbrev pub ivan : User
ivan = user_of 4 "ivan" 0 0

abbrev pub team : Group
team = record { id = 1; name = some "team"; describe = ""; avatar = ""; owner_id = 2 }

abbrev pub invite : GroupInvite
invite = record { id = 1; group_id = 1; inviter_id = 2; invitee_id = 4; status = pending }

abbrev pub sample : Db
sample = record {
  users = root ∷ olga ∷ mia ∷ ivan ∷ [];
  groups = team ∷ [];
  invites = invite ∷ [];
  logs = [];
  register_code = none;
  next_user = 5;
  next_group = 2;
  next_invite = 2;
  threads = [];
  messages = [];
  next_thread = 1;
  next_message = 1;
}

pub sample-IsValid : IsValid sample
unfolding get
sample-IsValid = record {
  owned = λ g r e z. ground arith;
  grouped = λ k u e z. ground arith;
  zero_free = refl;
  fresh = λ g l. ground arith;
  next_pos = omega arith;
  user_fresh = λ k l. ground arith;
  distinct = (refl, (refl, (refl, (refl, tt))));
}

pub sample-Counted : Counted sample
unfolding get count_where
sample-Counted = record {
  paired = λ k t e. absurd (cc);
  counted_a = λ k t e. absurd (cc);
  counted_b = λ k t e. absurd (cc);
  fresh = λ k l. refl;
  unused = λ k u l. refl;
  distinct = tt;
}

abbrev pub signed_in_as : ℕ → ℕ → Ctx
signed_in_as id role =
    some (record { user_id = id; username = ""; name = ""; email = ""; role_id = role })

-- A hashing that knows one password.
abbrev pub toy_bcrypt : Bcrypt
toy_bcrypt = record {
  generate = λ password. if str_eq password "secret" then some "$2a$10$secret" else none;
  compare = λ hash password. str_eq hash "$2a$10$secret" && str_eq password "secret";
}

tagged_toy : (hash : String) → hash ≡ "$2a$10$secret" → is_bcrypt_hash hash ≡ true
unfolding is_bcrypt_hash
tagged_toy hash e = subst (λ h. is_bcrypt_hash h ≡ true) (sym e) refl

pub toy_bcrypt-IsBcrypt : IsBcrypt toy_bcrypt
toy_bcrypt-IsBcrypt = record {
  tagged = λ password hash e. tagged_toy hash (ground arith);
  matches = λ password hash e. ground (arith, (str_eq_iff hash "$2a$10$secret").1);
}

abbrev pub sign_all : User → Option String
sign_all u = some "token"
