-- ===== src/Messages/Service.antt =====
-- The handlers of direct messages (app/user/internal/service/message.go).
use wust_algo_tracker.Prelude.{ℕ, suc, String, not, List, [], ◌∷◌, map, ◌==◌, ltb, if◌then◌else◌}
use wust_algo_tracker.Text.{is_empty, trim_space, rune_count}
use wust_algo_tracker.Permission.{Ctx, can_broadcast_message}
use wust_algo_tracker.User.Db.{Message}
use wust_algo_tracker.User.Tx.{
  bad_request, forbidden, internal_server, refused, Result, ok, err, Tx, return, read, reject_if,
  wrap, wrap_as, ◌>>=◌, ◌>>◌,
}
use wust_algo_tracker.User.Service.{signed_in, record_user_operation}
use wust_algo_tracker.Account.Dal.{get_by_id}
use wust_algo_tracker.Messages.Dal

-- normalizePage, for a page and a size that are not negative
unfoldable pub normalize_page : ℕ → ℕ → ℕ × ℕ
normalize_page page page_size =
    let page' = if page == 0 then 1 else page in
    let size = if page_size == 0 then 20 else page_size in (page', if ltb 50 size then 50 else size)

-- normalizeMessageContent
unfoldable pub normalize_message_content : String → Result String
unfolding trim_space rune_count
normalize_message_content content =
    let content' = trim_space content in
    if is_empty content'
    then err (refused bad_request "参数错误" "消息不能为空")
    else if ltb 1000 (rune_count content')
    then err (refused bad_request "参数错误" "消息不能超过1000字")
    else ok content'

-- `if err != nil { return err }`
unfoldable pub from_result : {A : Type 0} → Result A → Tx A
from_result r db = (r, db)

-- Send
unfoldable pub send : Ctx → ℕ → String → Tx Message
unfolding normalize_message_content
send ctx receiver_id content = do
  current ← signed_in ctx
  reject_if (receiver_id == 0) (refused bad_request "参数错误" "请选择接收用户")
  reject_if (receiver_id == current.user_id) (refused bad_request "参数错误" "不能给自己发私信")
  content ← from_result (normalize_message_content content)
  wrap bad_request "发送失败" (Dal.send current.user_id receiver_id content)

-- MarkRead
unfoldable pub mark_read : Ctx → ℕ → Tx String
mark_read ctx user_id = do
  current ← signed_in ctx
  reject_if (user_id == 0) (refused bad_request "参数错误" "请选择用户")
  reject_if (user_id == current.user_id) (refused bad_request "参数错误" "不能和自己私信")
  wrap internal_server "标记失败" (Dal.mark_thread_read current.user_id user_id)
  return "已读"

-- UnreadCount
unfoldable pub unread_count : Ctx → Tx ℕ
unread_count ctx = do
  current ← signed_in ctx
  wrap internal_server "查询失败" (Dal.unread_count current.user_id)

-- The loop of Broadcast: each message is a transaction of its own, and an error ends the loop.
unfoldable pub send_all : ℕ → String → List ℕ → Tx ℕ
send_all sender_id content [] = return 0
send_all sender_id content (receiver_id ∷ ids) =
    let rest = send_all sender_id content ids in
    if receiver_id == sender_id then rest else (do
      wrap internal_server "群发失败" (Dal.send sender_id receiver_id content)
      sent ← rest
      return (suc sent))

-- Broadcast
unfoldable pub broadcast : Ctx → String → Tx ℕ
unfolding normalize_message_content send_all can_broadcast_message
broadcast ctx content = do
  current ← signed_in ctx
  sender ← wrap_as (refused forbidden "权限不足" "用户不存在或已被禁用") (get_by_id current.user_id)
  reject_if (not (can_broadcast_message sender.role_id)) (refused forbidden "权限不足" "仅管理员或教练可以群发消息")
  content ← from_result (normalize_message_content content)
  ids ← read (λ db. map (λ u. u.id) db.users)
  sent ← send_all current.user_id content ids
  record_user_operation ctx "message.broadcast" "message" 0
  return sent
