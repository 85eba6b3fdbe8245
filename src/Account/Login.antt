-- ===== src/Account/Login.antt =====
-- Registration, login and the registration code (app/user/internal/service/auth.go, auth_rules.go).
-- bcrypt and the signing of tokens are libraries, and are parameters.
pub mod Roundtrip
use wust_algo_tracker.Prelude.{
  ℕ, suc, String, Bool, true, false, not, Option, none, some, List, [], ◌∷◌, ◌++◌, ◌==◌, str_eq,
  if◌then◌else◌,
}
use wust_algo_tracker.Table.{find}
use wust_algo_tracker.Text.{is_empty, trim_space}
use wust_algo_tracker.Permission.{Ctx, verify_admin}
use wust_algo_tracker.User.Db.{User, Db}
use wust_algo_tracker.User.Tx.{
  bad_request, forbidden, refused, Tx, return, found, read, write, reject_if, ◌>>=◌, ◌>>◌,
}
use wust_algo_tracker.Account.Dal.{update_user}
use wust_algo_tracker.Account.Service.{Bcrypt, Verdict, verify_password}

-- Success and Message of RegisterRes and LoginRes; a token where a login succeeds.
pub data Reply : Type 0 where
  registered : Reply
  logged_in : String → Reply
  failed : String → Reply

abbrev pub default_register_invite_code : String
default_register_invite_code = "wustacm666"

-- validateRegisterInviteCode: `none` where it returns true, else the message.
unfoldable pub validate_register_invite_code : String → String → Option String
unfolding trim_space
validate_register_invite_code input expected =
    let code = trim_space input in
    let wanted = trim_space expected in
    let wanted' = if is_empty wanted then default_register_invite_code else wanted in
    if is_empty code
    then some "请输入邀请码"
    else if not (str_eq code wanted')
    then some "邀请码错误"
    else none

-- getRegisterInviteCode
unfoldable pub get_register_invite_code : Option String → String
unfolding trim_space
get_register_invite_code none = default_register_invite_code
get_register_invite_code (some value) =
    if is_empty (trim_space value) then default_register_invite_code else trim_space value

-- UpdateRegisterInviteCode, with saveRegisterInviteCode
unfoldable pub update_register_invite_code : Ctx → String → Tx String
unfolding trim_space
update_register_invite_code ctx code = do
  reject_if (not (verify_admin ctx)) (refused forbidden "权限不足" "只有管理员可以修改邀请码")
  let invite_code = trim_space code
  reject_if (is_empty invite_code) (refused bad_request "参数错误" "邀请码不能为空")
  write (λ db. record db { register_code = some invite_code })
  return invite_code

-- The new row of Register.
abbrev pub new_user : ℕ → String → String → String → String → User
new_user id username hash name email = record {
  id = id;
  username = username;
  password = hash;
  avatar = "";
  name = name;
  email = email;
  group_id = 0;
  role_id = 0;
  email_enabled = true;
}

-- Register, from the hash on, where Create fails with the given message, if any. A column without a
-- value takes its default: mails are on.
unfoldable pub insert_user : String → String → String → Option String → Option String → Tx Reply
insert_user username name email create_error none = return (failed "密码加密失败")
insert_user username name email (some message) (some hash) = return (failed message)
insert_user username name email none (some hash) = do
  id ← read (λ db. db.next_user)
  write (λ db. record db {
    users = db.users ++ new_user id username hash name email ∷ [];
    next_user = suc id;
  })
  return registered

-- Register, after the code: a username that is taken is refused.
unfoldable pub register_checked :
    Bcrypt
    → Option String
    → String
    → String
    → String
    → String
    → Option String
    → Option User
    → Tx Reply
unfolding insert_user
register_checked bcrypt create_error username password name email (some message) taken =
    return (failed message)
register_checked bcrypt create_error username password name email none (some other) =
    return (failed "用户名已经存在")
register_checked bcrypt create_error username password name email none none =
    insert_user username name email create_error (bcrypt.generate password)

-- Register, where `create_error` is the message of the error of Create, if it has one
unfoldable pub register :
    Bcrypt → Option String → String → String → String → String → String → Tx Reply
unfolding register_checked validate_register_invite_code get_register_invite_code find
register bcrypt create_error code username password name email = do
  expected ← read (λ db. get_register_invite_code db.register_code)
  taken ← read (λ db. find (λ u. str_eq u.username username) db.users)
  register_checked bcrypt create_error username password name email
      (validate_register_invite_code code expected) taken

-- The rehash of Login: a stored plain password is replaced by its hash, if bcrypt makes one.
unfoldable pub rehash : ℕ → Bool → Option String → Tx (Unit {0})
unfolding update_user
rehash user_id true (some hash) = write (update_user user_id (λ u. record u { password = hash }))
rehash user_id _ _ = return tt

-- The end of Login: the token.
abbrev pub token_reply : Option String → Reply
token_reply none = failed "身份校验成功，但是jwt生成失败了."
token_reply (some token) = logged_in token

-- Login, for the row of the username.
unfoldable pub login_as : Bcrypt → (User → Option String) → String → Option User → Tx Reply
unfolding rehash verify_password
login_as bcrypt sign password none = return (failed "用户名或密码错误")
login_as bcrypt sign password (some u) =
    let verdict = verify_password bcrypt u.password password in
    if not verdict.valid then return (failed "用户名或密码错误") else (do
      rehash u.id verdict.needs_rehash (bcrypt.generate password)
      return (token_reply (sign u)))

-- Login
unfoldable pub login : Bcrypt → (User → Option String) → String → String → Tx Reply
unfolding login_as find
login bcrypt sign username password = do
  u ← read (λ db. find (λ u. str_eq u.username username) db.users)
  login_as bcrypt sign password u
