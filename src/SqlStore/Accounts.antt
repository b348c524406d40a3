-- ===== src/SqlStore/Accounts.antt =====
-- internal/controlplane/storage/sqlstore/user.go and session.go
use docker_monitoring.Prelude.{
  ℕ, Bool, true, not, ◌||◌, ◌&&◌, ◌++◌, Option, none, List, [], ◌∷◌, length, Text, text_eq,
  if◌then◌else◌,
}
use docker_monitoring.Models.{User, Session}
use docker_monitoring.Storage.{StoreError, Found, found}
use docker_monitoring.Storage.Memory.{or_now, text_lt, sort_by}
use docker_monitoring.History.{TimeText}
use docker_monitoring.SqlStore.{Tables, UserRow, SessionRow}
use docker_monitoring.SqlStore.Rows.{
  first_row, has_row, update_rows, rows_matched, delete_rows, affected, refused_if, query_row,
  query,
}
use docker_monitoring.SqlStore.Scans.{user_row, scan_user, session_row, scan_session}

abbrev pub is_user : Text → UserRow → Bool
is_user id r = text_eq r.id id

abbrev pub has_email : Text → UserRow → Bool
has_email email r = text_eq r.email email

abbrev pub is_session : Text → SessionRow → Bool
is_session id r = text_eq r.id id

abbrev pub has_token : Text → SessionRow → Bool
has_token token_hash r = text_eq r.token_hash token_hash

-- UPDATE users SET: every column but id and created_at.
unfoldable pub set_user : TimeText → User → UserRow → UserRow
set_user times u r = record (user_row times u) { id = r.id; created_at = r.created_at }

module _ {F : Type 0} (times : TimeText) where
  unfoldable pub create_user : Tables F → ℕ → User → Tables F × User × Option StoreError
  create_user s now u =
      let stamped = record u { created_at = or_now u.created_at now } in
      let broken = has_row (is_user u.id) s.users || has_row (has_email u.email) s.users in
      (
        (if broken then s else record s { users = s.users ++ (user_row times stamped ∷ []) }),
        stamped,
        refused_if broken,
      )

  unfoldable pub get_user : Tables F → Text → Found User
  get_user s id = query_row (scan_user times) (first_row (is_user id) s.users)

  unfoldable pub get_user_by_email : Tables F → Text → Found User
  get_user_by_email s email = query_row (scan_user times) (first_row (has_email email) s.users)

  unfoldable pub list_users : Tables F → Found (List User)
  list_users s =
      query (scan_user times) (sort_by (λ a b. text_lt a.created_at b.created_at) s.users)

  -- The e-mail address of another user breaks the UNIQUE constraint, if there is a row to update.
  unfoldable pub update_user : Tables F → User → Tables F × Option StoreError
  update_user s u =
      let taken = has_row (λ r. has_email u.email r && not (is_user u.id r)) s.users in
      if has_row (is_user u.id) s.users && taken then (s, refused_if true) else (
        record s { users = update_rows (is_user u.id) (set_user times u) s.users },
        affected (rows_matched (is_user u.id) s.users),
      )

  unfoldable pub create_session : Tables F → ℕ → Session → Tables F × Session × Option StoreError
  create_session s now sess =
      let stamped = record sess { created_at = or_now sess.created_at now } in
      let broken =
        has_row (is_session sess.id) s.sessions
        || (has_row (has_token sess.token_hash) s.sessions
            || not (has_row (is_user sess.user_id) s.users)) in
      (
        (if broken
            then s
            else record s { sessions = s.sessions ++ (session_row times stamped ∷ []) }),
        stamped,
        refused_if broken,
      )

  unfoldable pub get_session_by_token_hash : Tables F → Text → Found Session
  get_session_by_token_hash s token_hash =
      query_row (scan_session times) (first_row (has_token token_hash) s.sessions)

module _ {F : Type 0} where
  unfoldable pub count_users : Tables F → Found ℕ
  count_users s = found (length s.users)

  unfoldable pub delete_session : Tables F → Text → Tables F × Option StoreError
  delete_session s id = (
    record s { sessions = delete_rows (is_session id) s.sessions },
    affected (rows_matched (is_session id) s.sessions),
  )

  unfoldable pub delete_sessions_for_user : Tables F → Text → Tables F × Option StoreError
  delete_sessions_for_user s user_id =
      (record s { sessions = delete_rows (λ r. text_eq r.user_id user_id) s.sessions }, none)
