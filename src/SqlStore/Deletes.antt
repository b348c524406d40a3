-- ===== src/SqlStore/Deletes.antt =====
-- DeleteHost and DeleteContainer under the foreign keys (ON DELETE CASCADE and SET NULL).
use docker_monitoring.Prelude.{
  ◌≡◌, refl, map, none, some, if◌then◌else◌, Bool, true, false, ◌&&◌, List, [], ◌∷◌, All, Text,
  text_eq, text_eq_iff, arith, Bool-cases, inl, inr,
}
use docker_monitoring.SqlStore.{Tables, ContainerRow}
use docker_monitoring.SqlStore.Rows.{has_row, delete_rows, rows_matched, affected}
use docker_monitoring.Sql.{check_rows_affected}
use docker_monitoring.Storage.{not_found}
use docker_monitoring.SqlStore.Hosts.{is_host, is_on_host, forget_host, delete_host}
use docker_monitoring.SqlStore.Containers.{is_container, forget_container, delete_container}
use docker_monitoring.SqlStore.References.{
  known_host, known_container, IsReferential, All-map, All-delete, has_row-delete, has_row-both,
  is_reference-cleared,
}

module _ {F : Type 0} (s : Tables F) (v : IsReferential s) where
  survives :
      {A : Type 0} (key : A → Text) (rows : List A) (gone other : Text)
      → has_row (λ r. text_eq (key r) other) rows ≡ true
      → text_eq other gone ≡ false
      → has_row (λ r. text_eq (key r) other) (delete_rows (λ r. text_eq (key r) gone) rows) ≡ true
  survives key rows gone other there apart =
      has_row-delete (λ r. text_eq (key r) other) (λ r. text_eq (key r) gone) rows there
        (has_row-both key gone other rows
          (ground (arith, apart, text_eq_iff other gone, text_eq_iff gone other)))

  kept_containers :
      (id : Text) (rows : List ContainerRow)
      → All (λ r. known_host s r.host_id ≡ true) rows
      → All
          (λ r. has_row (is_host r.host_id) (delete_rows (is_host id) s.hosts) ≡ true)
          (delete_rows (is_on_host id) rows)
  kept_containers id [] known = tt
  kept_containers id (r ∷ rows) (here, known) = elim (Bool-cases (is_on_host id r)) [
    | inl gone ↦ rw gone (kept_containers id rows known)
    | inr apart ↦
        rw apart
          (survives (λ h. h.id) s.hosts id r.host_id here apart, kept_containers id rows known)
  ]

  pub delete_host-IsReferential : (id : Text) → IsReferential (delete_host s id).0
  unfolding delete_host forget_host
  delete_host-IsReferential id =
      let gone : Text → Bool = λ c. has_row (λ r. text_eq r.id c && is_on_host id r) s.containers in
      record {
        container_hosts = kept_containers id s.containers v.container_hosts;
        session_users = v.session_users;
        event_hosts =
            All-map _ _ (forget_host id gone) s.events
              (λ r h.
                is_reference-cleared (known_host s) _ (λ x. text_eq x id) r.host_id
                  (λ x there apart. survives (λ q. q.id) s.hosts id x there apart) h)
              v.event_hosts;
        event_containers =
            All-map _ _ (forget_host id gone) s.events
              (λ r h.
                is_reference-cleared (known_container s) _ gone r.container_id
                  (λ x there apart.
                    has_row-delete (is_container x) (is_on_host id) s.containers there apart)
                  h)
              v.event_containers;
        event_users = All-map _ _ (forget_host id gone) s.events (λ r h. h) v.event_users;
      }

  pub delete_container-IsReferential : (id : Text) → IsReferential (delete_container s id).0
  unfolding delete_container forget_container
  delete_container-IsReferential id = record {
    container_hosts = All-delete _ (is_container id) s.containers v.container_hosts;
    session_users = v.session_users;
    event_hosts = All-map _ _ (forget_container id) s.events (λ r h. h) v.event_hosts;
    event_containers =
        All-map _ _ (forget_container id) s.events
          (λ r h.
            is_reference-cleared (known_container s) _ (λ x. text_eq x id) r.container_id
              (λ x there apart. survives (λ q. q.id) s.containers id x there apart) h)
          v.event_containers;
    event_users = All-map _ _ (forget_container id) s.events (λ r h. h) v.event_users;
  }

module _ {A : Type 0} where
  affected-rows_matched :
      (test : A → Bool) (rows : List A)
      → affected (rows_matched test rows) ≡ (if has_row test rows then none else some not_found)
  unfolding has_row affected check_rows_affected
  affected-rows_matched test [] = refl
  affected-rows_matched test (r ∷ rows) =
      ground (arith, affected-rows_matched test rows, Bool-cases (test r))

  All-gone : (test : A → Bool) (rows : List A) → All (λ r. test r ≡ false) (delete_rows test rows)
  All-gone test [] = tt
  All-gone test (r ∷ rows) = ground (arith, Bool-cases (test r), All-gone test rows)

  has_row-gone : (test : A → Bool) (rows : List A) → has_row test (delete_rows test rows) ≡ false
  unfolding has_row
  has_row-gone test [] = refl
  has_row-gone test (r ∷ rows) = ground (arith, Bool-cases (test r), has_row-gone test rows)

  map-same :
      {B : Type 0} (key : A → B) (f : A → A) (rows : List A)
      → ((r : A) → key (f r) ≡ key r)
      → map key (map f rows) ≡ map key rows
  map-same key f [] same = refl
  map-same key f (r ∷ rows) same = ground (arith, same r, map-same key f rows same)

-- What DeleteHost does to the other tables: it reports a host that is not there, takes the host's
-- containers with it, and keeps every event.
pub record IsCascade {F : Type 0} (before : Tables F) (id : Text) : Type 0 where
  pub reported : (delete_host before id).1 ≡ (if known_host before id then none else some not_found)
  pub host_gone : known_host (delete_host before id).0 id ≡ false
  pub containers_gone : All (λ r. is_on_host id r ≡ false) (delete_host before id).0.containers
  pub events_kept : map (λ r. r.id) (delete_host before id).0.events ≡ map (λ r. r.id) before.events
  pub still_referential : IsReferential (delete_host before id).0

pub delete_host-IsCascade :
    {F : Type 0} (s : Tables F) (id : Text) → IsReferential s → IsCascade s id
unfolding delete_host forget_host
delete_host-IsCascade s id v = record {
  reported = affected-rows_matched (is_host id) s.hosts;
  host_gone = has_row-gone (is_host id) s.hosts;
  containers_gone = All-gone (is_on_host id) s.containers;
  events_kept = map-same (λ r. r.id) (forget_host id _) s.events (λ r. refl);
  still_referential = delete_host-IsReferential s v id;
}
