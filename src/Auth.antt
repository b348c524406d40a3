-- ===== src/Auth.antt =====
-- internal/controlplane/auth/service.go: accounts, logins and sessions, over any store of the
-- repository interface. What HashPassword and VerifyPassword do (auth/password.go) rests on Argon2id
-- and base64, so they are parameters here (Auth.Phc fills them), with SHA-256 and the random generator in `Env`. A
-- function is one call that no other call interleaves with.
pub mod Sessions
pub mod Phc
pub mod Credentials
pub mod Logout
use docker_monitoring.Prelude.{
  ℕ, suc, ◌+◌, Bool, true, false, ◌||◌, Option, none, some, List, [], ◌∷◌, Text, codes, is_empty,
  ltb, if◌then◌else◌,
}
use docker_monitoring.Prelude.Int.{ℤ, pos, sub_ℕ, ltb_ℤ}
use docker_monitoring.Models.{User, Session, Role, admin}
use docker_monitoring.Storage.{Store, StoreError, not_found, backend_failed, Found, found, missing}
use docker_monitoring.World.{Env, World, ticked, drawn}

-- auth/password.go: `hash_password n` is HashPassword with the salt of the n-th draw; `none` is an
-- error of the random generator, or of a stored hash that is not well formed.
pub record Passwords : Type 0 where
  pub hash_password : ℕ → Text → Option Text
  pub verify_password : Text → Text → Option Bool
  pub dummy_hash : Text  -- dummyHashForTimingParity

pub data AuthError : Type 0 where
  invalid_credentials session_invalid email_taken : AuthError
  hash_failed verify_failed token_failed : AuthError
  lookup_failed : StoreError → AuthError

pub data AuthReply {ℓ} (A : Type ℓ) : Type ℓ where
  granted : A → AuthReply A
  denied : AuthError → AuthReply A

-- `time.Now().UTC().After(sess.ExpiresAt)`
unfoldable pub is_over : Session → ℕ → Bool
is_over sess now = ltb sess.expires_at now

abbrev pub new_user : Text → Text → Text → Text → Role → User
new_user id email display_name hash role = record {
  id = id;
  email = email;
  display_name = display_name;
  password_hash = hash;
  role = role;
  created_at = 0;
  last_login_at = none;
}

-- The session of a login at `now`.
unfoldable pub new_session : Env → ℕ → ℕ → Text → User → Text → Session
new_session env ttl now id u token = record {
  id = id;
  user_id = u.id;
  token_hash = env.hash_token token;
  created_at = now;
  expires_at = now + ttl;
}

module _ {F S : Type 0} (env : Env) (ops : Store F S) (pw : Passwords) where
  -- CreateUser once the email is known to be free.
  unfoldable pub add_user : World F S → Text → Text → Text → Role → World F S × AuthReply User
  add_user w email display_name password role = elim (pw.hash_password w.draws password) [
    | none ↦ (drawn w, denied hash_failed)
    | some hash ↦
        let (s, u, failure) =
          ops.create_user w.store (env.clock w.reads)
            (new_user (env.new_id (suc w.draws)) email display_name hash role) in
        let after = record (ticked (drawn (drawn w))) { store = s } in
        elim failure [ some e ↦ (after, denied (lookup_failed e)) | none ↦ (after, granted u) ]
  ]

  unfoldable pub create_user : World F S → Text → Text → Text → Role → World F S × AuthReply User
  unfolding add_user
  create_user w email display_name password role = elim (ops.get_user_by_email w.store email) [
    | found u ↦ (w, denied email_taken)
    | missing not_found ↦ add_user w email display_name password role
    | missing e ↦ (w, denied (lookup_failed e))
  ]

  -- BootstrapAdminIfNeeded
  unfoldable pub bootstrap_admin : World F S → Text → Text → World F S × AuthReply Bool
  unfolding create_user
  bootstrap_admin w email password = elim (ops.count_users w.store) [
    | missing e ↦ (w, denied (lookup_failed e))
    | found count ↦
        if ltb 0 count
        then (w, granted false)
        else if is_empty email || is_empty password
        then (w, granted false)
        else (let (after, reply) = create_user w email (codes "Administrator") password admin in
            elim reply [ denied e ↦ (after, denied e) | granted u ↦ (after, granted true) ])
  ]

module _ {F S : Type 0} (env : Env) (ops : Store F S) (pw : Passwords) (session_ttl : ℕ) where
  -- Login once the password is verified. The failure of the last write does not matter.
  unfoldable pub open_session : World F S → User → World F S × AuthReply (Text × Session)
  unfolding new_session
  open_session w u = elim (env.random_token w.draws) [
    | none ↦ (drawn w, denied token_failed)
    | some token ↦
        let now = env.clock w.reads in
        let sess = new_session env session_ttl now (env.new_id (suc w.draws)) u token in
        let (s, stored, failure) = ops.create_session w.store (env.clock (suc w.reads)) sess in
        let after = record (ticked (ticked (drawn (drawn w)))) { store = s } in
        elim failure [
          | some e ↦ (after, denied (lookup_failed e))
          | none ↦ (
            record after { store = (ops.update_user s (record u { last_login_at = some now })).0 },
            granted (token, stored),
          )
        ]
  ]

  -- Login, with the stored hashes on which it runs VerifyPassword, as that takes its time; without an
  -- account it runs on the dummy hash and drops the answer.
  abbrev pub run_login :
      World F S → Text → Text → World F S × AuthReply (Text × Session) × List Text
  run_login w email password = elim (ops.get_user_by_email w.store email) [
    | missing not_found ↦ (w, denied invalid_credentials, pw.dummy_hash ∷ [])
    | missing e ↦ (w, denied (lookup_failed e), [])
    | found u ↦ elim (pw.verify_password password u.password_hash) [
      | none ↦ (w, denied verify_failed, u.password_hash ∷ [])
      | some false ↦ (w, denied invalid_credentials, u.password_hash ∷ [])
      | some true ↦ let (after, reply) = open_session w u in (after, reply, u.password_hash ∷ [])
    ]
  ]

  unfoldable pub login : World F S → Text → Text → World F S × AuthReply (Text × Session)
  unfolding open_session
  login w email password =
      let (after, reply, verified) = run_login w email password in (after, reply)

module _ {F S : Type 0} (env : Env) (ops : Store F S) where
  unfoldable pub logout : World F S → Text → World F S × Option StoreError
  logout w token = elim (ops.get_session_by_token_hash w.store (env.hash_token token)) [
    | missing not_found ↦ (w, none)
    | missing e ↦ (w, some e)
    | found sess ↦
        let (s, failure) = ops.delete_session w.store sess.id in (record w { store = s }, failure)
  ]

  -- Authenticate with the session that the token's hash names.
  unfoldable pub admit : World F S → Session → World F S × AuthReply User
  unfolding is_over
  admit w sess =
      if is_over sess (env.clock w.reads)
      then (
        record (ticked w) { store = (ops.delete_session w.store sess.id).0 },
        denied session_invalid,
      )
      else elim (ops.get_user w.store sess.user_id) [
        | missing e ↦ (ticked w, denied (lookup_failed e))
        | found u ↦ (ticked w, granted u)
      ]

  unfoldable pub authenticate : World F S → Text → World F S × AuthReply User
  unfolding admit
  authenticate w token =
      if is_empty token
      then (w, denied session_invalid)
      else elim (ops.get_session_by_token_hash w.store (env.hash_token token)) [
        | missing not_found ↦ (w, denied session_invalid)
        | missing e ↦ (w, denied (lookup_failed e))
        | found sess ↦ admit w sess
      ]
