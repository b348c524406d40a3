-- ===== src/Auth/Credentials.antt =====
-- Who gets in at Login, and the first account (internal/controlplane/auth/service.go).
use docker_monitoring.Prelude.{
  ℕ, suc, ◌<◌, ◌≡◌, false, inl, inr, true, false, some, [], ◌∷◌, Text, codes, insert, Map, length,
  arith, Option-cases,
}
use docker_monitoring.Models.{User, Session, admin}
use docker_monitoring.Storage.{Store, found}
use docker_monitoring.Storage.Memory.{Memory, or_now}
use docker_monitoring.Storage.Memory.Instance.{memory_store}
use docker_monitoring.Storage.Memory.Accounts
use docker_monitoring.Storage.Memory.Accounts.{count_users}
use docker_monitoring.World.{Env, World}
use docker_monitoring.Auth.{
  Passwords, granted, new_user, new_session, add_user, create_user, bootstrap_admin, open_session,
  login,
}

module _ {F S : Type 0} (env : Env) (ops : Store F S) (pw : Passwords) (session_ttl : ℕ) where
  -- The store after the writes of a login.
  abbrev pub logged_in : World F S → User → Text → S
  logged_in w u token =
      let now = env.clock w.reads in
      (ops.update_user
        (ops.create_session w.store (env.clock (suc w.reads))
          (new_session env session_ttl now (env.new_id (suc w.draws)) u token)).0
        (record u { last_login_at = some now })).0

  -- A login that is granted was for an account that exists, with the password that verifies against
  -- its stored hash; it returns the newly drawn token, and what it writes is that token's session
  -- and the account's login time.
  pub login-granted :
      (w : World F S) (email password token : Text) (sess : Session)
      → (login env ops pw session_ttl w email password).1 ≡ granted (token, sess)
      → (u : User) × (ops.get_user_by_email w.store email ≡ found u)
        × (pw.verify_password password u.password_hash ≡ some true)
        × (env.random_token w.draws ≡ some token)
        × ((login env ops pw session_ttl w email password).0.store ≡ logged_in w u token)
  unfolding login open_session
  login-granted w email password token sess e = ground arith

length-insert : (k : Text) (u : User) (m : Map User) → 0 < length (insert k u m)
unfolding insert
length-insert k u [] = omega arith
length-insert k u ((j, x) ∷ m) = ground arith

module _ {F : Type 0} (env : Env) (pw : Passwords) where
  bootstrap-users :
      (w : World F (Memory F)) (email password : Text)
      → (bootstrap_admin env (memory_store F) pw w email password).1 ≡ granted true
      → 0 < length (bootstrap_admin env (memory_store F) pw w email password).0.store.users
  unfolding bootstrap_admin create_user add_user Accounts.create_user
  bootstrap-users w email password e = elim (Option-cases (pw.hash_password w.draws password)) [
    | inl broken ↦ ground (arith, broken)
    | inr (hash, hashed) ↦ ground (
      arith,
      hashed,
      length-insert (env.new_id (suc w.draws))
          (record (new_user (env.new_id (suc w.draws)) email (codes "Administrator") hash admin) {
            created_at = or_now 0 (env.clock w.reads);
          })
          w.store.users,
    )
  ]

  bootstrap-skips :
      (w : World F (Memory F)) (email password : Text)
      → 0 < length w.store.users
      → bootstrap_admin env (memory_store F) pw w email password ≡ (w, granted false)
  unfolding bootstrap_admin count_users
  bootstrap-skips w email password h = ground arith

  -- The first administrator is created once: after a bootstrap that created it in the in-memory
  -- store, any further bootstrap, with whatever email and password, creates nothing and changes
  -- nothing.
  pub bootstrap_once :
      (w : World F (Memory F)) (email password email' password' : Text)
      → (bootstrap_admin env (memory_store F) pw w email password).1 ≡ granted true
      → bootstrap_admin env
          (memory_store F)
          pw
          (bootstrap_admin env (memory_store F) pw w email password).0
          email'
          password'
        ≡ ((bootstrap_admin env (memory_store F) pw w email password).0, granted false)
  bootstrap_once w email password email' password' e =
      bootstrap-skips (bootstrap_admin env (memory_store F) pw w email password).0 email' password'
        (bootstrap-users w email password e)
