-- ===== src/SqlStore/Bindings.antt =====
-- The slices that ListEvents builds (internal/controlplane/storage/sqlstore/event.go): which argument
-- goes to which condition.
use docker_monitoring.Prelude.{
  Option, none, some, Option-cases, sym, ap, ◌∙◌, append_assoc, append-nil, length-append, ◌≡◌,
  refl, List, [], ◌∷◌, ◌++◌, length, arith, inl, inr,
}
use docker_monitoring.Storage.{EventFilter}
use docker_monitoring.History.{TimeText}
use docker_monitoring.SqlStore.Events.{
  Condition, Argument, Clause, host_is, container_is, type_is, severity_is, created_from,
  created_to, text_argument, severity_argument, Selection, select_if, selection, bind_args,
}

-- The conditions of a filter, each with its own argument.
abbrev pub clause_for {ℓ} : {A : Type ℓ} → Condition → (A → Argument) → Option A → List Clause
clause_for condition argument none = []
clause_for condition argument (some a) = (condition, argument a) ∷ []

abbrev pub where_clauses : TimeText → EventFilter → List Clause
where_clauses times filter =
    clause_for host_is text_argument filter.host_id
    ++ (clause_for container_is text_argument filter.container_id
        ++ (clause_for type_is text_argument filter.event_type
            ++ (clause_for severity_is severity_argument filter.severity
                ++ (clause_for created_from (λ t. text_argument (times.format_time t))
                      filter.from_time
                    ++ clause_for created_to (λ t. text_argument (times.format_time t))
                        filter.to_time))))

bind_args-snoc :
    (conditions : List Condition) (args : List Argument) (clauses : List Clause) (c : Condition)
    (a : Argument)
    → bind_args conditions args ≡ some clauses
    → bind_args (conditions ++ (c ∷ [])) (args ++ (a ∷ [])) ≡ some (clauses ++ ((c, a) ∷ []))
unfolding bind_args
bind_args-snoc [] [] clauses c a e = ground arith
bind_args-snoc [] (b ∷ args) clauses c a e = absurd (ground arith)
bind_args-snoc (d ∷ conditions) [] clauses c a e = absurd (ground arith)
bind_args-snoc (d ∷ conditions) (b ∷ args) clauses c a e =
    elim (Option-cases (bind_args conditions args)) [
      | inl none_bound ↦ absurd (ground (arith, none_bound))
      | inr (more, bound) ↦ ground (arith, bound, bind_args-snoc conditions args more c a bound)
    ]

module _ {ℓ} {A : Type ℓ} where
  bind_args-select_if :
      (c : Condition) (argument : A → Argument) (o : Option A) (q : Selection)
      (clauses : List Clause)
      → bind_args q.conditions q.args ≡ some clauses
      → bind_args (select_if c argument o q).conditions (select_if c argument o q).args
        ≡ some (clauses ++ clause_for c argument o)
  bind_args-select_if c argument none q clauses e = e ∙ ap some (sym (append-nil clauses))
  bind_args-select_if c argument (some a) q clauses e =
      bind_args-snoc q.conditions q.args clauses c (argument a) e

  select_if-length :
      (c : Condition) (argument : A → Argument) (o : Option A) (q : Selection)
      → length q.conditions ≡ length q.args
      → length (select_if c argument o q).conditions ≡ length (select_if c argument o q).args
  select_if-length c argument none q e = e
  select_if-length c argument (some a) q e =
      omega (arith, e, length-append q.conditions (c ∷ []), length-append q.args (argument a ∷ []))

append_five :
    {A : Type 0} (a b c d e f : List A)
    → ((((a ++ b) ++ c) ++ d) ++ e) ++ f ≡ a ++ (b ++ (c ++ (d ++ (e ++ f))))
append_five a b c d e f = simp append_assoc

pub selection-bind_args :
    (times : TimeText) (filter : EventFilter)
    → bind_args (selection times filter).conditions (selection times filter).args
      ≡ some (where_clauses times filter)
unfolding selection bind_args
selection-bind_args times filter =
    bind_args-select_if created_to _ filter.to_time _ _ (
      bind_args-select_if created_from _ filter.from_time _ _ (
        bind_args-select_if severity_is _ filter.severity _ _ (
          bind_args-select_if type_is _ filter.event_type _ _ (
            bind_args-select_if container_is _ filter.container_id _ _ (
              bind_args-select_if host_is _ filter.host_id (record { conditions = []; args = [] })
                [] refl)))))
    ∙ ap some (append_five (clause_for host_is text_argument filter.host_id) _ _ _ _ _)

pub selection-length :
    (times : TimeText) (filter : EventFilter)
    → length (selection times filter).conditions ≡ length (selection times filter).args
unfolding selection
selection-length times filter = select_if-length created_to _ filter.to_time _ (
    select_if-length created_from _ filter.from_time _ (
      select_if-length severity_is _ filter.severity _ (
        select_if-length type_is _ filter.event_type _ (
          select_if-length container_is _ filter.container_id _ (
            select_if-length host_is _ filter.host_id (record { conditions = []; args = [] })
              refl)))))
