-- ===== src/Examples/Accounts.antt =====
-- Accounts and sessions on a concrete store.
use docker_monitoring.Prelude.{
  ℕ, ◌*◌, ◌≡◌, ◌≢◌, refl, none, some, [], ◌∷◌, Text, codes, text_eq, lookup, arith,
}
use docker_monitoring.Models.{User, Session, viewer}
use docker_monitoring.Monitoring.{second}
use docker_monitoring.Storage.{not_found, found, missing}
use docker_monitoring.Storage.Memory.{Memory, values, find_first}
use docker_monitoring.Storage.Memory.Instance.{memory_store}
use docker_monitoring.Storage.Memory.Keys.{IsWellKeyed}
use docker_monitoring.Storage.Memory.Accounts.{
  get_user_by_email, get_session_by_token_hash, create_session, update_user,
}
use docker_monitoring.World.{World}
use docker_monitoring.Auth.{
  granted, denied, session_invalid, new_session, login, open_session, authenticate,
}
use docker_monitoring.Auth.{logout}
use docker_monitoring.Auth.Logout.{logout_then_authenticate}
use docker_monitoring.Prelude.{inr}
use docker_monitoring.Auth.Sessions.{login_then_authenticate}
use docker_monitoring.Examples.Fixtures.{dollars, env, host_one, store_with, world_with}

abbrev ada : User
ada = record {
  id = codes "u1";
  email = codes "ada@example.org";
  display_name = codes "Ada";
  password_hash = codes "$secret";
  role = viewer;
  created_at = 1;
  last_login_at = none;
}

abbrev visit : Session
visit = record {
  id = codes "s1";
  user_id = codes "u1";
  token_hash = codes "#pass";
  created_at = 1;
  expires_at = 900 * second;
}

abbrev accounts : World ℕ (Memory ℕ)
accounts = record (world_with host_one) {
  store = record (store_with host_one) {
    users = (codes "u1", ada) ∷ [];
    sessions = (codes "s1", visit) ∷ [];
  };
}

accounts-IsWellKeyed : IsWellKeyed accounts.store
accounts-IsWellKeyed = record {
  hosts_keyed = (refl, tt);
  containers_keyed = tt;
  metrics_keyed = tt;
  users_keyed = (refl, tt);
  sessions_keyed = (refl, tt);
}

abbrev opened : Session
opened = record {
  id = b'e' ∷ 1 ∷ [];
  user_id = codes "u1";
  token_hash = b'#' ∷ b't' ∷ 0 ∷ [];
  created_at = 1000 * second;
  expires_at = 1060 * second;
}

logs_in :
    (login env
      (memory_store ℕ)
      dollars
      (60 * second)
      accounts
      (codes "ada@example.org")
      (codes "secret")).1
    ≡ granted (b't' ∷ 0 ∷ [], opened)
unfolding login open_session new_session get_user_by_email create_session update_user find_first
    values text_eq lookup
logs_in = refl

finds_visit : get_session_by_token_hash accounts.store (codes "#pass") ≡ found visit
unfolding get_session_by_token_hash find_first values text_eq
finds_visit = refl

finds_no_session :
    get_session_by_token_hash accounts.store (b'#' ∷ b't' ∷ 0 ∷ []) ≡ missing not_found
unfolding get_session_by_token_hash find_first values text_eq
finds_no_session = refl

unused_id : lookup (b'e' ∷ 1 ∷ []) accounts.store.sessions ≡ none
unfolding lookup text_eq
unused_id = refl

abbrev fresh_token : Text
fresh_token = b't' ∷ 0 ∷ []

not_empty : fresh_token ≢ []
not_empty e = ground arith

login_then_authenticate_example :
    (u : User) × (get_user_by_email accounts.store (codes "ada@example.org") ≡ found u)
    × ((authenticate env
          (memory_store ℕ)
          (record (login env
            (memory_store ℕ)
            dollars
            (60 * second)
            accounts
            (codes "ada@example.org")
            (codes "secret")).0 { reads = 30; draws = 9 })
          (b't' ∷ 0 ∷ [])).1
        ≡ granted (record u { last_login_at = some (1000 * second) }))
login_then_authenticate_example =
    login_then_authenticate env dollars (60 * second) accounts (codes "ada@example.org")
      (codes "secret") (b't' ∷ 0 ∷ []) opened 30 9 accounts-IsWellKeyed logs_in not_empty unused_id
      finds_no_session (omega arith)

some_token : codes "pass" ≢ []
some_token e = ground arith

abbrev blank : World ℕ (Memory ℕ)
blank = world_with host_one

logout_then_authenticate_example :
    (authenticate env
      (memory_store ℕ)
      (record (logout env (memory_store ℕ) accounts (codes "pass")).0 { reads = 7; draws = 7 })
      (codes "pass")).1
    ≡ denied session_invalid
unfolding text_eq
logout_then_authenticate_example =
    logout_then_authenticate env accounts (codes "pass") visit 7 7 accounts-IsWellKeyed finds_visit
      (inr refl, tt)
