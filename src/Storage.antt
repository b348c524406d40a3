-- ===== src/Storage.antt =====
-- internal/controlplane/storage/store.go: the repository interface that the control plane is coded
-- against, for a store with state `S`. A method that writes returns the new state beside its error;
-- the methods that fill in a missing `CreatedAt` take what the clock reads, and return the record
-- as the caller's pointer holds it afterwards.
pub mod Memory
pub mod Laws
use docker_monitoring.Prelude.{
  ℕ, ◌≡◌, refl, ◌⊎◌, inl, inr, Bool, true, false, Option, none, List, Text,
}
use docker_monitoring.Prelude.Int.{ℤ}
use docker_monitoring.Models.{Host, Container, Metric, User, Session, Event, EventSeverity}

-- ErrNotFound, and any other error of a backend.
pub data StoreError : Type 0 where
  not_found backend_failed : StoreError

-- errors.Is(err, storage.ErrNotFound)
abbrev pub is_not_found : StoreError → Bool
is_not_found not_found = true
is_not_found backend_failed = false

pub data Found {ℓ} (A : Type ℓ) : Type ℓ where
  found : A → Found A
  missing : StoreError → Found A

abbrev pub is_found {ℓ} : {A : Type ℓ} → Found A → Bool
is_found (found a) = true
is_found (missing e) = false

pub Found-cases {ℓ} :
    {A : Type ℓ} (o : Found A) → ((e : StoreError) × (o ≡ missing e)) ⊎ ((a : A) × (o ≡ found a))
Found-cases (missing e) = inl (e, refl)
Found-cases (found a) = inr (a, refl)

pub record EventFilter : Type 0 where
  pub host_id : Option Text
  pub container_id : Option Text
  pub event_type : Option Text
  pub severity : Option EventSeverity
  pub from_time : Option ℕ
  pub to_time : Option ℕ
  pub limit : ℤ

pub record Store (F S : Type 0) : Type 0 where
  pub create_host : S → ℕ → Host → S × Host × Option StoreError
  pub get_host : S → Text → Found Host
  pub list_hosts : S → Found (List Host)
  pub update_host : S → Host → S × Option StoreError
  pub delete_host : S → Text → S × Option StoreError
  pub upsert_container : S → ℕ → Container → S × Option StoreError
  pub get_container : S → Text → Found Container
  pub list_containers_by_host : S → Text → Found (List Container)
  pub delete_container : S → Text → S × Option StoreError
  pub record_metric : S → Metric F → S × Option StoreError
  pub latest_metric : S → Text → Text → Found (Metric F)
  pub append_event : S → ℕ → Event → S × Event × Option StoreError
  pub list_events : S → EventFilter → Found (List Event)
  pub create_user : S → ℕ → User → S × User × Option StoreError
  pub get_user : S → Text → Found User
  pub get_user_by_email : S → Text → Found User
  pub list_users : S → Found (List User)
  pub update_user : S → User → S × Option StoreError
  pub count_users : S → Found ℕ
  pub create_session : S → ℕ → Session → S × Session × Option StoreError
  pub get_session_by_token_hash : S → Text → Found Session
  pub delete_session : S → Text → S × Option StoreError
  pub delete_sessions_for_user : S → Text → S × Option StoreError
