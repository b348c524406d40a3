-- ===== src/SqlStore/References.antt =====
-- The foreign keys of migrations/0001_init.sql (internal/controlplane/storage/sqlstore), and what a
-- statement on a table does to the rows that they refer to.
use docker_monitoring.Prelude.{
  ◌≡◌, refl, Bool, true, false, ◌&&◌, Option, none, some, List, [], ◌∷◌, ◌++◌, map, All, Text,
  text_eq, text_eq_iff, arith, Bool-cases, inl, inr,
}
use docker_monitoring.SqlStore.{Tables, EventRow}
use docker_monitoring.SqlStore.Rows.{has_row, update_rows, delete_rows, is_reference, cleared}
use docker_monitoring.SqlStore.Hosts.{is_host}
use docker_monitoring.SqlStore.Containers.{is_container}
use docker_monitoring.SqlStore.Accounts.{is_user}

abbrev pub known_host : {F : Type 0} → Tables F → Text → Bool
known_host s id = has_row (is_host id) s.hosts

abbrev pub known_container : {F : Type 0} → Tables F → Text → Bool
known_container s id = has_row (is_container id) s.containers

abbrev pub known_user : {F : Type 0} → Tables F → Text → Bool
known_user s id = has_row (is_user id) s.users

-- Every foreign key refers to a row that is there.
pub record IsReferential {F : Type 0} (s : Tables F) : Type 0 where
  pub container_hosts : All (λ r. known_host s r.host_id ≡ true) s.containers
  pub session_users : All (λ r. known_user s r.user_id ≡ true) s.sessions
  pub event_hosts : All (λ r. is_reference (known_host s) r.host_id ≡ true) s.events
  pub event_containers : All (λ r. is_reference (known_container s) r.container_id ≡ true) s.events
  pub event_users : All (λ r. is_reference (known_user s) r.user_id ≡ true) s.events

module _ {A : Type 0} where
  pub All-weaken : (P Q : A → Type 0) (xs : List A) → ((x : A) → P x → Q x) → All P xs → All Q xs
  All-weaken P Q [] step all = tt
  All-weaken P Q (x ∷ xs) step (here, all) = (step x here, All-weaken P Q xs step all)

  pub All-map :
      (P Q : A → Type 0) (f : A → A) (xs : List A)
      → ((x : A) → P x → Q (f x))
      → All P xs
      → All Q (map f xs)
  All-map P Q f [] step all = tt
  All-map P Q f (x ∷ xs) step (here, all) = (step x here, All-map P Q f xs step all)

  pub All-update :
      (P : A → Type 0) (test : A → Bool) (set : A → A) (xs : List A)
      → ((x : A) → P (set x))
      → All P xs
      → All P (update_rows test set xs)
  unfolding update_rows
  All-update P test set [] step all = tt
  All-update P test set (x ∷ xs) step (here, all) =
      ground (arith, here, step x, All-update P test set xs step all)

  pub All-delete :
      (P : A → Type 0) (test : A → Bool) (xs : List A) → All P xs → All P (delete_rows test xs)
  All-delete P test [] all = tt
  All-delete P test (x ∷ xs) (here, all) = ground (arith, here, All-delete P test xs all)

  pub has_row-append :
      (test : A → Bool) (xs ys : List A) → has_row test xs ≡ true → has_row test (xs ++ ys) ≡ true
  unfolding has_row
  has_row-append test [] ys h = ground arith
  has_row-append test (x ∷ xs) ys h = ground (arith, has_row-append test xs ys)

  pub has_row-update :
      (test other : A → Bool) (set : A → A) (xs : List A)
      → ((x : A) → test (set x) ≡ test x)
      → has_row test (update_rows other set xs) ≡ has_row test xs
  unfolding has_row update_rows
  has_row-update test other set [] keeps = refl
  has_row-update test other set (x ∷ xs) keeps =
      ground (arith, keeps x, has_row-update test other set xs keeps)

  -- A row outlives a deletion that does not select it.
  pub has_row-delete :
      (test gone : A → Bool) (xs : List A)
      → has_row test xs ≡ true
      → has_row (λ x. test x && gone x) xs ≡ false
      → has_row test (delete_rows gone xs) ≡ true
  unfolding has_row
  has_row-delete test gone [] h kept = ground arith
  has_row-delete test gone (x ∷ xs) h kept = ground (arith, has_row-delete test gone xs)

  pub has_row-both :
      (key : A → Text) (id other : Text) (xs : List A)
      → text_eq id other ≡ false
      → has_row (λ x. text_eq (key x) other && text_eq (key x) id) xs ≡ false
  unfolding has_row
  has_row-both key id other [] h = refl
  has_row-both key id other (x ∷ xs) h = ground (
    arith,
    text_eq_iff (key x) id,
    text_eq_iff (key x) other,
    text_eq_iff id other,
    has_row-both key id other xs h,
  )

-- A reference outlives a change that keeps every row.
is_reference-weaken :
    (before after : Text → Bool) (o : Option Text)
    → ((id : Text) → before id ≡ true → after id ≡ true)
    → is_reference before o ≡ true
    → is_reference after o ≡ true
is_reference-weaken before after none grows h = refl
is_reference-weaken before after (some id) grows h = grows id h

pub is_reference-cleared :
    (before after gone : Text → Bool) (o : Option Text)
    → ((id : Text) → before id ≡ true → gone id ≡ false → after id ≡ true)
    → is_reference before o ≡ true
    → is_reference after (cleared gone o) ≡ true
is_reference-cleared before after gone none grows h = refl
is_reference-cleared before after gone (some id) grows h = elim (Bool-cases (gone id)) [
  | inl lost ↦ ground (arith, lost)
  | inr kept ↦ ground (arith, kept, grows id h kept)
]

module _ {F : Type 0} where
  -- The events of a sound store.
  abbrev pub HasKnown : Tables F → EventRow → Type 0
  HasKnown s r =
      (is_reference (known_host s) r.host_id ≡ true)
      × (is_reference (known_container s) r.container_id ≡ true)
      × (is_reference (known_user s) r.user_id ≡ true)

  pub known_events :
      (s : Tables F) (rows : List EventRow)
      → All (λ r. is_reference (known_host s) r.host_id ≡ true) rows
      → All (λ r. is_reference (known_container s) r.container_id ≡ true) rows
      → All (λ r. is_reference (known_user s) r.user_id ≡ true) rows
      → All (HasKnown s) rows
  known_events s [] a b c = tt
  known_events s (r ∷ rows) (a, more_a) (b, more_b) (c, more_c) =
      ((a, b, c), known_events s rows more_a more_b more_c)

  -- A change that keeps every row that a key may refer to.
  pub IsReferential-grown :
      (s after : Tables F)
      → IsReferential s
      → ((id : Text) → known_host s id ≡ true → known_host after id ≡ true)
      → ((id : Text) → known_container s id ≡ true → known_container after id ≡ true)
      → ((id : Text) → known_user s id ≡ true → known_user after id ≡ true)
      → All (λ r. known_host s r.host_id ≡ true) after.containers
      → All (λ r. known_user s r.user_id ≡ true) after.sessions
      → All (HasKnown s) after.events
      → IsReferential after
  IsReferential-grown s after v hosts containers users on_hosts of_users events = record {
    container_hosts = All-weaken _ _ after.containers (λ r. hosts r.host_id) on_hosts;
    session_users = All-weaken _ _ after.sessions (λ r. users r.user_id) of_users;
    event_hosts =
        All-weaken _ _ after.events (λ r h. is_reference-weaken _ _ r.host_id hosts h.0) events;
    event_containers =
        All-weaken _ _ after.events (λ r h. is_reference-weaken _ _ r.container_id containers h.1)
          events;
    event_users =
        All-weaken _ _ after.events (λ r h. is_reference-weaken _ _ r.user_id users h.2) events;
  }
