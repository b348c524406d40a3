-- ===== src/Storage/Memory/Accounts.antt =====
-- Users and sessions of internal/controlplane/storage/memory/memory.go.
use docker_monitoring.Prelude.{
  ℕ, Option, none, some, List, Text, text_eq, lookup, insert, delete, length,
}
use docker_monitoring.Models.{User, Session}
use docker_monitoring.Storage.{StoreError, not_found, Found, found}
use docker_monitoring.Storage.Memory.{
  Memory, values, find_first, of_lookup, sort_by, or_now, drop_user,
}
use docker_monitoring.Prelude.{ltb}

module _ {F : Type 0} where
  unfoldable pub create_user : Memory F → ℕ → User → Memory F × User × Option StoreError
  create_user s now u =
      let stamped = record u { created_at = or_now u.created_at now } in
      (record s { users = insert u.id stamped s.users }, stamped, none)

  unfoldable pub get_user : Memory F → Text → Found User
  unfolding of_lookup
  get_user s id = of_lookup (lookup id s.users)

  unfoldable pub get_user_by_email : Memory F → Text → Found User
  get_user_by_email s email = find_first (λ u. text_eq u.email email) (values s.users)

  unfoldable pub list_users : Memory F → Found (List User)
  list_users s = found (sort_by (λ a b. ltb a.created_at b.created_at) (values s.users))

  unfoldable pub update_user : Memory F → User → Memory F × Option StoreError
  update_user s u = elim (lookup u.id s.users) [
    | none ↦ (s, some not_found)
    | some _ ↦ (record s { users = insert u.id u s.users }, none)
  ]

  unfoldable pub count_users : Memory F → Found ℕ
  count_users s = found (length s.users)

  unfoldable pub create_session : Memory F → ℕ → Session → Memory F × Session × Option StoreError
  create_session s now sess =
      let stamped = record sess { created_at = or_now sess.created_at now } in
      (record s { sessions = insert sess.id stamped s.sessions }, stamped, none)

  unfoldable pub get_session_by_token_hash : Memory F → Text → Found Session
  get_session_by_token_hash s token_hash =
      find_first (λ v. text_eq v.token_hash token_hash) (values s.sessions)

  unfoldable pub delete_session : Memory F → Text → Memory F × Option StoreError
  delete_session s id = elim (lookup id s.sessions) [
    | none ↦ (s, some not_found)
    | some _ ↦ (record s { sessions = delete id s.sessions }, none)
  ]

  unfoldable pub delete_sessions_for_user : Memory F → Text → Memory F × Option StoreError
  delete_sessions_for_user s user_id = (record s { sessions = drop_user user_id s.sessions }, none)
