-- ===== src/User/Service.antt =====
-- What the handlers of the user service share: the caller (app/common/utils/auth/check.go, message.go
-- of app/user/internal/service) and the operation log (audit.go).
use wust_algo_tracker.Prelude.{ℕ, String, none, some, [], ◌∷◌, ◌++◌, ◌==◌}
use wust_algo_tracker.Permission.{JwtPayload, Ctx}
use wust_algo_tracker.User.Tx.{
  unauthorized, Error, refused, Tx, return, found, write, reject_if, ◌>>=◌, ◌>>◌,
}

abbrev pub not_signed_in : Error
not_signed_in = refused unauthorized "未登录" "请先登录"

-- `current == nil || current.UserID == 0`
unfoldable pub signed_in : Ctx → Tx JwtPayload
signed_in ctx = do
  current ← found ctx not_signed_in
  reject_if (current.user_id == 0) not_signed_in
  return current

abbrev pub operator_id_of : Ctx → ℕ
operator_id_of none = 0
operator_id_of (some pd) = pd.user_id

abbrev pub operator_role_of : Ctx → ℕ
operator_role_of none = 0
operator_role_of (some pd) = pd.role_id

-- recordUserOperation: a row of the operation log; what goes wrong there is only logged.
unfoldable pub record_user_operation : Ctx → String → String → ℕ → Tx (Unit {0})
record_user_operation ctx action target_type target_id = write (λ db. record db {
  logs =
      db.logs
      ++ record {
        operator_id = operator_id_of ctx;
        operator_role = operator_role_of ctx;
        action = action;
        target_type = target_type;
        target_id = target_id;
      }
        ∷ [];
})
