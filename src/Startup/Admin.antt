-- ===== src/Startup/Admin.antt =====
-- The first account over restarts (cmd/controlplane/main.go,
-- internal/controlplane/auth/service.go) on the SQL store.
use docker_monitoring.Prelude.{
  ℕ, suc, ◌<◌, ◌≡◌, ◌||◌, true, false, none, List, [], ◌∷◌, ◌++◌, Text, codes, length, is_empty,
  arith, Option-cases, Bool-cases, inl, inr, ltb, ◌⊎◌, refl,
}
use docker_monitoring.Models.{User, admin}
use docker_monitoring.Storage.{Found-cases, not_found, backend_failed}
use docker_monitoring.World.{Env, World}
use docker_monitoring.Auth.{
  Passwords, AuthError, AuthReply, granted, denied, new_user, add_user, create_user,
  bootstrap_admin,
}
use docker_monitoring.Sql.{Dialect}
use docker_monitoring.History.{TimeText}
use docker_monitoring.Config.{Config}
use docker_monitoring.SqlStore.{Tables, RealColumn}
use docker_monitoring.SqlStore.Rows.{has_row}
use docker_monitoring.SqlStore.Accounts
use docker_monitoring.SqlStore.Accounts.{is_user, has_email, count_users}
use docker_monitoring.SqlStore.Instance.{sql_store}
use docker_monitoring.Startup.Accounts.{admin_created, goes_on, start_accounts}

length-append_one : {A : Type 0} (xs : List A) (x : A) → 0 < length (xs ++ (x ∷ []))
length-append_one [] x = omega arith
length-append_one (y ∷ xs) x = omega arith

create_user-users :
    {F : Type 0} (times : TimeText) (s : Tables F) (now : ℕ) (u : User)
    → (Accounts.create_user times s now u).2 ≡ none
    → 0 < length (Accounts.create_user times s now u).0.users
unfolding Accounts.create_user
create_user-users times s now u done =
    elim (Bool-cases (has_row (is_user u.id) s.users || has_row (has_email u.email) s.users)) [
      | inl broken ↦ absurd (ground (arith, broken))
      | inr fresh ↦ rw (fresh, Accounts.create_user) (length-append_one s.users _)
    ]

Reply-cases :
    {A : Type 0} (r : AuthReply A)
    → ((e : AuthError) × (r ≡ denied e)) ⊎ ((a : A) × (r ≡ granted a))
Reply-cases (denied e) = inl (e, refl)
Reply-cases (granted a) = inr (a, refl)

module _ {F : Type 0} ⦃reals : RealColumn F⦄ (env : Env) (pw : Passwords) (dialect : Dialect)
    (times : TimeText) where
  add_user-users :
      (w : World F (Tables F)) (email name password : Text) (u : User)
      → (add_user env (sql_store F dialect times) pw w email name password admin).1 ≡ granted u
      → 0
        < length
            (add_user env (sql_store F dialect times) pw w email name password admin).0.store.users
  unfolding add_user
  add_user-users w email name password u e =
      elim (Option-cases (pw.hash_password w.draws password)) [
        | inl broken ↦ absurd (ground (arith, broken))
        | inr (hash, hashed) ↦
            let made = new_user (env.new_id (suc w.draws)) email name hash admin in
            elim (Option-cases (Accounts.create_user times w.store (env.clock w.reads) made).2) [
              | inr (why, failed) ↦ absurd (ground (arith, hashed, failed))
              | inl done ↦
                  ground
                    (arith, hashed, done, create_user-users times w.store (env.clock w.reads) made)
            ]
      ]

  bootstrap_admin-users :
      (w : World F (Tables F)) (email password : Text)
      → (bootstrap_admin env (sql_store F dialect times) pw w email password).1 ≡ granted true
      → 0
        < length (bootstrap_admin env (sql_store F dialect times) pw w email password).0.store.users
  unfolding bootstrap_admin create_user count_users
  bootstrap_admin-users w email password e =
      let ops = sql_store F dialect times in
      elim (Bool-cases (ltb 0 (length w.store.users))) [
        | inl some_there ↦ absurd (ground (arith, some_there))
        | inr none_there ↦ elim (Bool-cases (is_empty email || is_empty password)) [
          | inl unset ↦ absurd (ground (arith, none_there, unset))
          | inr given ↦ elim (Found-cases (ops.get_user_by_email w.store email)) [
            | inr (u, taken) ↦ absurd (ground (arith, none_there, given, taken))
            | inl (not_found, free) ↦
                elim (Reply-cases
                  (add_user env ops pw w email (codes "Administrator") password admin).1) [
                    | inl (why, refused) ↦ absurd (ground (arith, none_there, given, free, refused))
                    | inr (u, added) ↦ ground (
                      arith,
                      none_there,
                      given,
                      free,
                      added,
                      add_user-users w email (codes "Administrator") password u added,
                    )
                  ]
            | inl (backend_failed, broken) ↦ absurd (ground (arith, none_there, given, broken))
          ]
        ]
      ]

  start_accounts-users :
      (cfg : Config) (w : World F (Tables F))
      → (start_accounts env (sql_store F dialect times) pw cfg w).1 ≡ admin_created
      → 0 < length (start_accounts env (sql_store F dialect times) pw cfg w).0.store.users
  unfolding start_accounts
  start_accounts-users cfg w e =
      let ops = sql_store F dialect times in
      elim (Reply-cases
        (bootstrap_admin env ops pw w cfg.bootstrap_admin_email cfg.bootstrap_admin_password).1) [
          | inl (why, refused) ↦ absurd (ground (arith, refused))
          | inr (true, created) ↦ ground (
            arith,
            created,
            bootstrap_admin-users w cfg.bootstrap_admin_email cfg.bootstrap_admin_password created,
          )
          | inr (false, none_made) ↦ absurd (ground (arith, none_made))
        ]

  start_accounts-skips :
      (cfg : Config) (w : World F (Tables F))
      → 0 < length w.store.users
      → start_accounts env (sql_store F dialect times) pw cfg w
        ≡ (w, goes_on (is_empty cfg.bootstrap_admin_email || is_empty cfg.bootstrap_admin_password))
  unfolding start_accounts bootstrap_admin count_users
  start_accounts-skips cfg w h = ground arith

  -- The first administrator is created once, over restarts: on the SQL store, whose tables outlive
  -- the program, after a start that created the account every later start that finds the tables it
  -- left, with whatever settings and whatever else has changed, creates no account, changes nothing
  -- and goes on.
  pub start_accounts-once :
      (cfg later : Config) (w after : World F (Tables F))
      → (start_accounts env (sql_store F dialect times) pw cfg w).1 ≡ admin_created
      → after.store ≡ (start_accounts env (sql_store F dialect times) pw cfg w).0.store
      → start_accounts env (sql_store F dialect times) pw later after ≡ (
        after,
        goes_on (is_empty later.bootstrap_admin_email || is_empty later.bootstrap_admin_password),
      )
  start_accounts-once cfg later w after created kept =
      start_accounts-skips later after (rw (kept) (start_accounts-users cfg w created))
