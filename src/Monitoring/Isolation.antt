-- ===== src/Monitoring/Isolation.antt =====
-- Whole histories of calls of one engine, about many hosts and containers
-- (internal/controlplane/monitoring/engine.go).
use docker_monitoring.Prelude.{
  ℕ, ◌≡◌, refl, inl, inr, ◌∙◌, sym, ap, ap₂, Bool, true, false, ◌&&◌, List, [], ◌∷◌, Text, text_eq,
  text_eq_iff, lookup, lookup-insert, arith, Bool-cases, if◌then◌else◌,
}
use docker_monitoring.Prelude.Int.{ℤ}
use docker_monitoring.Models.{Float64, Metric, ContainerStatus, HealthStatus}
use docker_monitoring.Monitoring.{
  EntityKind, entity_host, entity_container, EntityState, fresh_state, ThresholdConfig, Engine,
  state_key, state_mode, new_engine, get_or_create, put_state, effective_mode, evaluate_metric,
  evaluate_container_health, manual_viewer_open, manual_viewer_close,
}
use docker_monitoring.Monitoring.Streak.{
  Input, sample, health_report, open_viewer, close_viewer, IsConsistent, input_step, run_inputs,
  run_inputs-IsConsistent,
}

-- The calls that change an engine, each with what the clock reads in it.
pub data Call (F : Type 0) : Type 0 where
  metric_call : ℕ → EntityKind → Text → Metric F → Call F
  health_call : ℕ → Text → ContainerStatus → HealthStatus → ℤ → ℤ → Call F
  open_call close_call : EntityKind → Text → Call F

unfoldable pub kind_eq : EntityKind → EntityKind → Bool
kind_eq entity_host entity_host = true
kind_eq entity_container entity_container = true
kind_eq _ _ = false

-- Entities have different keys: the kinds' names differ before the first "/".
pub state_key_iff :
    (kind other : EntityKind) (id another : Text)
    → text_eq (state_key kind id) (state_key other another)
      ≡ (kind_eq kind other && text_eq id another)
unfolding state_key kind_eq text_eq
state_key_iff entity_host entity_host id another = refl
state_key_iff entity_container entity_container id another = refl
state_key_iff entity_host entity_container id another = refl
state_key_iff entity_container entity_host id another = refl

same_entity :
    (a b : EntityKind) (i j : Text) → (kind_eq a b && text_eq i j) ≡ true → (a ≡ b) × (i ≡ j)
unfolding kind_eq
same_entity a b i j h = ground (arith, text_eq_iff i j)

module _ {F : Type 0} where
  abbrev pub kind_of : Call F → EntityKind
  kind_of (metric_call now kind id m) = kind
  kind_of (health_call now id s h r p) = entity_container
  kind_of (open_call kind id) = kind
  kind_of (close_call kind id) = kind

  abbrev pub id_of : Call F → Text
  id_of (metric_call now kind id m) = id
  id_of (health_call now id s h r p) = id
  id_of (open_call kind id) = id
  id_of (close_call kind id) = id

  abbrev pub input_of : Call F → Input F
  input_of (metric_call now kind id m) = sample now m
  input_of (health_call now id s h r p) = health_report s h r p
  input_of (open_call kind id) = open_viewer
  input_of (close_call kind id) = close_viewer

  -- The calls about one entity, in order.
  unfoldable pub inputs_about : EntityKind → Text → List (Call F) → List (Input F)
  inputs_about kind id [] = []
  inputs_about kind id (c ∷ rest) =
      let others = inputs_about kind id rest in
      if kind_eq (kind_of c) kind && text_eq (id_of c) id then input_of c ∷ others else others

module _ {F : Type 0} ⦃fl : Float64 F⦄ where
  unfoldable pub engine_call : Engine F → Call F → Engine F
  engine_call e (metric_call now kind id m) = (evaluate_metric e now kind id m).0
  engine_call e (health_call now id s h r p) = (evaluate_container_health e now id s h r p).0
  engine_call e (open_call kind id) = manual_viewer_open e kind id
  engine_call e (close_call kind id) = manual_viewer_close e kind id

  unfoldable pub run_calls : Engine F → List (Call F) → Engine F
  run_calls e [] = e
  run_calls e (c ∷ rest) = run_calls (engine_call e c) rest

  engine_call_lem :
      (e : Engine F) (c : Call F)
      → engine_call e c
        ≡ put_state e
            (kind_of c)
            (id_of c)
            (input_step e.cfg (get_or_create e (kind_of c) (id_of c)) (input_of c)).0
  unfolding engine_call evaluate_metric evaluate_container_health manual_viewer_open
      manual_viewer_close input_step
  engine_call_lem e (metric_call now kind id m) = refl
  engine_call_lem e (health_call now id s h r p) = refl
  engine_call_lem e (open_call kind id) = refl
  engine_call_lem e (close_call kind id) = refl

  pub get_or_create-put_state :
      (e : Engine F) (kind other : EntityKind) (id another : Text) (st : EntityState)
      → get_or_create (put_state e kind id st) other another
        ≡ (if kind_eq kind other && text_eq id another then st else get_or_create e other another)
  unfolding get_or_create put_state
  get_or_create-put_state e kind other id another st = ground (
    arith,
    state_key_iff kind other id another,
    lookup-insert (state_key kind id) (state_key other another) st e.state,
  )

  engine_call-cfg : (e : Engine F) (c : Call F) → (engine_call e c).cfg ≡ e.cfg
  unfolding put_state
  engine_call-cfg e c = ap (λ (x : Engine F). x.cfg) (engine_call_lem e c)

  get_or_create-engine_call :
      (e : Engine F) (c : Call F) (kind : EntityKind) (id : Text)
      → get_or_create (engine_call e c) kind id ≡ (
          if kind_eq (kind_of c) kind && text_eq (id_of c) id
          then (input_step e.cfg (get_or_create e (kind_of c) (id_of c)) (input_of c)).0
          else get_or_create e kind id)
  get_or_create-engine_call e c kind id =
      ap (λ (x : Engine F). get_or_create x kind id) (engine_call_lem e c)
      ∙ get_or_create-put_state e (kind_of c) kind (id_of c) id _

  -- One call, seen from any entity.
  engine_call-independent :
      (e : Engine F) (c : Call F) (kind : EntityKind) (id : Text)
      → get_or_create (engine_call e c) kind id
        ≡ run_inputs e.cfg (get_or_create e kind id) (inputs_about kind id (c ∷ []))
  unfolding run_inputs inputs_about
  engine_call-independent e c kind id =
      elim (Bool-cases (kind_eq (kind_of c) kind && text_eq (id_of c) id)) [
        | inl same ↦
            let (k, i) = same_entity (kind_of c) kind (id_of c) id same in
            rw (get_or_create-engine_call e c kind id, same) (rw (k, i) refl)
        | inr differs ↦ rw (get_or_create-engine_call e c kind id, differs) refl
      ]

  run_inputs_about :
      (cfg : ThresholdConfig F) (st : EntityState) (c : Call F) (rest : List (Call F))
      (kind : EntityKind) (id : Text)
      → run_inputs cfg st (inputs_about kind id (c ∷ rest))
        ≡ run_inputs cfg
            (run_inputs cfg st (inputs_about kind id (c ∷ [])))
            (inputs_about kind id rest)
  unfolding run_inputs inputs_about
  run_inputs_about cfg st c rest kind id =
      elim (Bool-cases (kind_eq (kind_of c) kind && text_eq (id_of c) id)) [
        | inl same ↦ rw same refl
        | inr differs ↦ rw differs refl
      ]

  -- Whatever calls an engine serves, the state it keeps for one entity is that of a machine of its
  -- own that is given only the calls about that entity; no call about another entity shows.
  pub run_calls-independent :
      (e : Engine F) (calls : List (Call F)) (kind : EntityKind) (id : Text)
      → get_or_create (run_calls e calls) kind id
        ≡ run_inputs e.cfg (get_or_create e kind id) (inputs_about kind id calls)
  unfolding run_calls inputs_about
  run_calls-independent e [] kind id = unfold run_inputs in refl
  run_calls-independent e (c ∷ rest) kind id =
      run_calls-independent (engine_call e c) rest kind id
      ∙ ap₂ (λ cfg st. run_inputs cfg st (inputs_about kind id rest)) (engine_call-cfg e c)
          (engine_call-independent e c kind id)
      ∙ sym (run_inputs_about e.cfg (get_or_create e kind id) c rest kind id)

  get_or_create-new_engine :
      (cfg : ThresholdConfig F) (kind : EntityKind) (id : Text)
      → get_or_create (new_engine cfg) kind id ≡ fresh_state
  unfolding get_or_create new_engine lookup
  get_or_create-new_engine cfg kind id = refl

  -- In any engine that started empty, each entity's state is consistent after any calls.
  pub run_calls-IsConsistent :
      (cfg : ThresholdConfig F) (calls : List (Call F)) (kind : EntityKind) (id : Text)
      → IsConsistent (get_or_create (run_calls (new_engine cfg) calls) kind id)
  run_calls-IsConsistent cfg calls kind id =
      rw
        (run_calls-independent (new_engine cfg) calls kind id, get_or_create-new_engine cfg kind id)
        (run_inputs-IsConsistent (new_engine cfg).cfg (inputs_about kind id calls))

  -- EffectiveMode reads nothing but the entity's own state; an entity that is not in the map has
  -- the mode of a fresh one.
  pub effective_mode-state :
      (e : Engine F) (kind : EntityKind) (id : Text)
      → effective_mode e kind id ≡ state_mode (get_or_create e kind id)
  unfolding effective_mode get_or_create
  effective_mode-state e kind id = ground arith
