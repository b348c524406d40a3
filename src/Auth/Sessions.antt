-- ===== src/Auth/Sessions.antt =====
-- The life of a session (internal/controlplane/auth/service.go).
use docker_monitoring.Prelude.{
  ℕ, suc, ◌+◌, ◌≤◌, ◌<◌, ◌≡◌, ◌≢◌, refl, ap, ◌∙◌, ◌↔◌, inl, inr, Bool, true, none, some, [], ◌∷◌,
  Text, Map, lookup, insert, lookup-insert, text_eq, text_eq_iff, text_eq_refl, arith, Bool-cases,
}
use docker_monitoring.Models.{User, Session}
use docker_monitoring.Storage.{Store, not_found, found, missing, Found-cases}
use docker_monitoring.Storage.Memory.{Memory, values, find_first, of_lookup}
use docker_monitoring.Storage.Memory.Instance.{memory_store}
use docker_monitoring.Storage.Memory.Keys.{IsKeyed, IsWellKeyed}
use docker_monitoring.Storage.Memory.Accounts.{
  get_user, get_user_by_email, update_user, create_session, get_session_by_token_hash,
}
use docker_monitoring.World.{Env, World}
use docker_monitoring.Auth.{
  Passwords, session_invalid, granted, denied, is_over, new_session, login, admit, authenticate,
}
use docker_monitoring.Auth.Credentials.{logged_in, login-granted}

module _ {F S : Type 0} (env : Env) (ops : Store F S) where
  -- Authenticate admits a user exactly for a token that is not empty, whose hash is that of a stored
  -- session which is not past its expiry, and which belongs to that user.
  pub authenticate-granted :
      (w : World F S) (token : Text) (u : User)
      → ((authenticate env ops w token).1 ≡ granted u) ↔ (
          (token ≢ [])
          × ((sess : Session) × (ops.get_session_by_token_hash w.store (env.hash_token token)
                ≡ found sess)
              × (env.clock w.reads ≤ sess.expires_at)
              × (ops.get_user w.store sess.user_id ≡ found u)))
  unfolding authenticate admit is_over
  authenticate-granted w token u = (
    λ h. (
      λ e. ground arith,
      elim (Found-cases (ops.get_session_by_token_hash w.store (env.hash_token token))) [
        | inl (x, lost) ↦ absurd (ground arith)
        | inr (sess, got) ↦ (sess, got, ground arith, ground arith)
      ],
    ),
    λ h. ground arith,
  )

  -- A session that is past its expiry is refused and deleted from the store.
  pub authenticate-expired :
      (w : World F S) (token : Text) (sess : Session)
      → token ≢ []
      → ops.get_session_by_token_hash w.store (env.hash_token token) ≡ found sess
      → sess.expires_at < env.clock w.reads
      → ((authenticate env ops w token).1 ≡ denied session_invalid)
        × ((authenticate env ops w token).0.store ≡ (ops.delete_session w.store sess.id).0)
  unfolding authenticate admit is_over
  authenticate-expired w token sess some_token got late = (ground arith, ground arith)

find-inserted :
    (test : Session → Bool) (k : Text) (x : Session) (m : Map Session)
    → lookup k m ≡ none
    → find_first test (values m) ≡ missing not_found
    → test x ≡ true
    → find_first test (values (insert k x m)) ≡ found x
unfolding find_first values insert lookup
find-inserted test k x [] absent none_such hit = ground arith
find-inserted test k x ((j, y) ∷ m) absent none_such hit = ground (arith, find-inserted test k x m)

module _ {V : Type 0} (id_of : V → Text) where
  pub find-lookup :
      (test : V → Bool) (m : Map V) (u : V)
      → IsKeyed id_of m
      → find_first test (values m) ≡ found u
      → (v : V) × (lookup (id_of u) m ≡ some v)
  unfolding find_first values lookup
  find-lookup test [] u keyed got = ground arith
  find-lookup test ((j, y) ∷ m) u keyed got = elim (Bool-cases (text_eq j (id_of u))) [
    | inl same ↦ (y, ground (arith, same))
    | inr differs ↦ elim (Bool-cases (test y)) [
      | inl hit ↦ absurd (ground (arith, hit, text_eq_iff j (id_of u), keyed.0))
      | inr miss ↦
          let (v, e) = find-lookup test m u keyed.1 (ground (arith, miss)) in
          (v, ground (arith, differs, e))
    ]
  ]

module _ {F : Type 0} where
  update_user-memory :
      (s : Memory F) (u v : User)
      → lookup u.id s.users ≡ some v
      → ((update_user s u).0.sessions ≡ s.sessions) × (get_user (update_user s u).0 u.id ≡ found u)
  unfolding update_user get_user of_lookup
  update_user-memory s u v known = (
    ground (arith, known),
    ground (arith, known, lookup-insert u.id u.id u s.users, text_eq_refl u.id),
  )

  find_by_email :
      (s : Memory F) (email : Text) (u : User)
      → IsWellKeyed s
      → get_user_by_email s email ≡ found u
      → (v : User) × (lookup u.id s.users ≡ some v)
  unfolding get_user_by_email
  find_by_email s email u keyed got =
      find-lookup (λ x. x.id) (λ x. text_eq x.email email) s.users u keyed.users_keyed got

  -- What Authenticate finds after the writes of a login.
  reads_session :
      (env : Env) (pw : Passwords) (w : World F (Memory F)) (session_ttl : ℕ) (u v : User)
      (token : Text)
      → lookup u.id w.store.users ≡ some v
      → lookup (env.new_id (suc w.draws)) w.store.sessions ≡ none
      → get_session_by_token_hash w.store (env.hash_token token) ≡ missing not_found
      → (sess : Session) × (get_session_by_token_hash
            (logged_in env (memory_store F) pw session_ttl w u token)
            (env.hash_token token)
          ≡ found sess)
        × (sess.expires_at ≡ env.clock w.reads + session_ttl)
        × (get_user (logged_in env (memory_store F) pw session_ttl w u token) sess.user_id
            ≡ found (record u { last_login_at = some (env.clock w.reads) }))
  unfolding get_session_by_token_hash create_session new_session
  reads_session env pw w session_ttl u v token known fresh unused =
      let now = env.clock w.reads in
      let sess = new_session env session_ttl now (env.new_id (suc w.draws)) u token in
      let s = (create_session w.store (env.clock (suc w.reads)) sess).0 in
      let stored = (create_session w.store (env.clock (suc w.reads)) sess).1 in
      (
        stored,
        ap
              (λ (m : Map Session).
                find_first (λ x. text_eq x.token_hash (env.hash_token token)) (values m))
              (update_user-memory s (record u { last_login_at = some now }) v known).0
            ∙ find-inserted (λ x. text_eq x.token_hash (env.hash_token token)) sess.id stored
                w.store.sessions fresh unused (text_eq_refl (env.hash_token token)),
        refl,
        (update_user-memory s (record u { last_login_at = some now }) v known).1,
      )

  -- A login opens a session: over the in-memory store, as long as the new session's ID and the new
  -- token's hash are not in use, Authenticate admits the account that logged in, with its new login
  -- time, for the token that Login returned and until the session's lifetime is over.
  pub login_then_authenticate :
      (env : Env) (pw : Passwords) (session_ttl : ℕ) (w : World F (Memory F))
      (email password token : Text) (sess : Session) (reads draws : ℕ)
      → IsWellKeyed w.store
      → (login env (memory_store F) pw session_ttl w email password).1 ≡ granted (token, sess)
      → token ≢ []
      → lookup (env.new_id (suc w.draws)) w.store.sessions ≡ none
      → get_session_by_token_hash w.store (env.hash_token token) ≡ missing not_found
      → env.clock reads ≤ env.clock w.reads + session_ttl
      → (u : User) × (get_user_by_email w.store email ≡ found u)
        × ((authenticate env
              (memory_store F)
              (record (login env (memory_store F) pw session_ttl w email password).0 {
                reads = reads;
                draws = draws;
              })
              token).1
            ≡ granted (record u { last_login_at = some (env.clock w.reads) }))
  login_then_authenticate env pw session_ttl w email password token sess reads draws keyed e
        some_token fresh unused in_time =
      let (u, got, _, _, after) =
        login-granted env (memory_store F) pw session_ttl w email password token sess e in
      let (v, known) = find_by_email w.store email u keyed got in
      let (opened, reads_it, expiry, owner) =
        reads_session env pw w session_ttl u v token known fresh unused in
      let later : World F (Memory F) =
        record (login env (memory_store F) pw session_ttl w email password).0 {
          reads = reads;
          draws = draws;
        } in
      (
        u,
        got,
        (authenticate-granted env (memory_store F) later token
              (record u { last_login_at = some (env.clock w.reads) })).1
            (
              some_token,
              (
                opened,
                ap (λ (s : Memory F). get_session_by_token_hash s (env.hash_token token)) after
                    ∙ reads_it,
                ground (arith, expiry),
                ap (λ (s : Memory F). get_user s opened.user_id) after ∙ owner,
              ),
            ),
      )
