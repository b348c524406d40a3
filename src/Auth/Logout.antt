-- ===== src/Auth/Logout.antt =====
-- Logout (internal/controlplane/auth/service.go) over the in-memory store.
use docker_monitoring.Prelude.{
  ℕ, ◌≡◌, refl, ap, ◌∙◌, ◌⊎◌, Bool, true, false, [], ◌∷◌, Text, text_eq, Map, delete, All, arith,
}
use docker_monitoring.Models.{Session}
use docker_monitoring.Storage.{not_found, found, missing}
use docker_monitoring.Storage.Memory.{Memory, values, find_first}
use docker_monitoring.Storage.Memory.Instance.{memory_store}
use docker_monitoring.Storage.Memory.Keys.{IsWellKeyed}
use docker_monitoring.Storage.Memory.Accounts.{get_session_by_token_hash, delete_session}
use docker_monitoring.World.{Env, World}
use docker_monitoring.Auth.{denied, session_invalid, logout, authenticate}
use docker_monitoring.Auth.Sessions.{find-lookup}

-- Every entry that a test accepts stands under one key.
abbrev pub OnlyAt : (Session → Bool) → Text → Map Session → Type 0
OnlyAt test k = All (λ e. (test e.1 ≡ false) ⊎ (text_eq e.0 k ≡ true))

find-deleted :
    (test : Session → Bool) (k : Text) (m : Map Session)
    → OnlyAt test k m
    → find_first test (values (delete k m)) ≡ missing not_found
unfolding find_first values delete
find-deleted test k [] only = refl
find-deleted test k ((j, x) ∷ m) only = ground (arith, find-deleted test k m only.1)

module _ {F : Type 0} (env : Env) where
  logout-store :
      (w : World F (Memory F)) (token : Text) (sess : Session)
      → IsWellKeyed w.store
      → get_session_by_token_hash w.store (env.hash_token token) ≡ found sess
      → (logout env (memory_store F) w token).0.store.sessions ≡ delete sess.id w.store.sessions
  unfolding logout delete_session get_session_by_token_hash
  logout-store w token sess keyed got =
      let (v, known) =
        find-lookup (λ x. x.id) (λ x. text_eq x.token_hash (env.hash_token token)) w.store.sessions
          sess keyed.sessions_keyed got in
      ground (arith, got, known)

  refuses :
      (u : World F (Memory F)) (token : Text)
      → get_session_by_token_hash u.store (env.hash_token token) ≡ missing not_found
      → (authenticate env (memory_store F) u token).1 ≡ denied session_invalid
  unfolding authenticate
  refuses u token gone = ground (arith, gone)

  -- Logging out revokes the token: over the in-memory store, where no other session has the token's
  -- hash, Authenticate refuses the token after the logout, at whatever time.
  pub logout_then_authenticate :
      (w : World F (Memory F)) (token : Text) (sess : Session) (reads draws : ℕ)
      → IsWellKeyed w.store
      → get_session_by_token_hash w.store (env.hash_token token) ≡ found sess
      → OnlyAt (λ x. text_eq x.token_hash (env.hash_token token)) sess.id w.store.sessions
      → (authenticate env
          (memory_store F)
          (record (logout env (memory_store F) w token).0 { reads = reads; draws = draws })
          token).1
        ≡ denied session_invalid
  unfolding get_session_by_token_hash
  logout_then_authenticate w token sess reads draws keyed got only =
      let test : Session → Bool = λ x. text_eq x.token_hash (env.hash_token token) in
      refuses (record (logout env (memory_store F) w token).0 { reads = reads; draws = draws })
        token
        (ap (λ (m : Map Session). find_first test (values m)) (logout-store w token sess keyed got)
          ∙ find-deleted test sess.id w.store.sessions only)
