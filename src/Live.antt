-- ===== src/Live.antt =====
-- internal/controlplane/api/live.go: the live view of a host or a container, opened and closed.
use docker_monitoring.Prelude.{
  ℕ, ◌≡◌, refl, ◌∙◌, ap, sym, Bool, true, none, some, Text, text_eq_refl, if◌then◌else◌, arith,
}
use docker_monitoring.Prelude.Int.{ℤ}
use docker_monitoring.Models.{Float64, MonitoringMode, manual_realtime}
use docker_monitoring.Monitoring.{
  EntityKind, entity_host, entity_container, EntityState, Engine, state_mode, viewer_open,
  viewer_close, get_or_create, put_state, effective_mode, manual_viewer_open, manual_viewer_close,
  interval_seconds,
}
use docker_monitoring.Monitoring.Isolation.{kind_eq, get_or_create-put_state, effective_mode-state}
use docker_monitoring.Storage.{Store, is_found}
use docker_monitoring.World.{World}

-- A status alone, or status 200 with the mode and its interval.
pub data LiveReply : Type 0 where
  live_status : ℕ → LiveReply
  live_mode : MonitoringMode → ℤ → LiveReply

-- writeLiveResponse
unfoldable pub live_response : {F : Type 0} → Engine F → EntityKind → Text → LiveReply
live_response e kind id =
    let mode = effective_mode e kind id in live_mode mode (interval_seconds e mode)

module _ {F S : Type 0} (ops : Store F S) where
  -- `s.store.GetHost` or `s.store.GetContainer` finds the entity.
  unfoldable pub is_known : S → EntityKind → Text → Bool
  is_known s entity_host id = is_found (ops.get_host s id)
  is_known s entity_container id = is_found (ops.get_container s id)

  -- The four handlers: `change` is ManualViewerOpen or ManualViewerClose.
  unfoldable pub handle_live :
      (Engine F → EntityKind → Text → Engine F)
      → World F S
      → EntityKind
      → Text
      → World F S × LiveReply
  unfolding is_known live_response
  handle_live change w kind id = elim w.monitor [
    | none ↦ (w, live_status 501)
    | some e ↦
        let changed = change e kind id in
        if is_known w.store kind id
        then (record w { monitor = some changed }, live_response changed kind id)
        else (w, live_status 404)
  ]

  unfoldable pub handle_live_open : World F S → EntityKind → Text → World F S × LiveReply
  unfolding handle_live
  handle_live_open w kind id = handle_live manual_viewer_open w kind id

  unfoldable pub handle_live_close : World F S → EntityKind → Text → World F S × LiveReply
  unfolding handle_live
  handle_live_close w kind id = handle_live manual_viewer_close w kind id

closed_opened : (st : EntityState) → viewer_close (viewer_open st) ≡ st
unfolding viewer_open viewer_close
closed_opened st = ground arith

same_interval :
    {F : Type 0} (e e' : Engine F) (mode : MonitoringMode)
    → e'.cfg ≡ e.cfg
    → interval_seconds e' mode ≡ interval_seconds e mode
unfolding interval_seconds
same_interval e e' mode same = ground arith

module _ {F : Type 0} ⦃fl : Float64 F⦄ where
  same_state :
      (e : Engine F) (kind : EntityKind) (id : Text) (st : EntityState)
      → get_or_create (put_state e kind id st) kind id ≡ st
  unfolding kind_eq
  same_state e entity_host id st =
      get_or_create-put_state e entity_host entity_host id id st ∙ ground (arith, text_eq_refl id)
  same_state e entity_container id st =
      get_or_create-put_state e entity_container entity_container id id st
      ∙ ground (arith, text_eq_refl id)

  opened_mode :
      (e : Engine F) (kind : EntityKind) (id : Text)
      → effective_mode (manual_viewer_open e kind id) kind id ≡ manual_realtime
  unfolding manual_viewer_open viewer_open
  opened_mode e kind id =
      effective_mode-state (manual_viewer_open e kind id) kind id
      ∙ ap state_mode (same_state e kind id (viewer_open (get_or_create e kind id)))
      ∙ ground arith

  reopened_mode :
      (e : Engine F) (kind : EntityKind) (id : Text)
      → effective_mode (manual_viewer_close (manual_viewer_open e kind id) kind id) kind id
        ≡ effective_mode e kind id
  unfolding manual_viewer_open manual_viewer_close viewer_open viewer_close
  reopened_mode e kind id =
      effective_mode-state (manual_viewer_close (manual_viewer_open e kind id) kind id) kind id
      ∙ ap state_mode (
          same_state (manual_viewer_open e kind id) kind id _
          ∙ ap viewer_close (same_state e kind id (viewer_open (get_or_create e kind id)))
          ∙ closed_opened (get_or_create e kind id))
      ∙ sym (effective_mode-state e kind id)

module _ {F S : Type 0} ⦃fl : Float64 F⦄ (ops : Store F S) where
  -- Opening the live view of a known host or container answers with MANUAL_REALTIME and the
  -- engine's interval for it; closing it again answers with the mode and the interval that the
  -- entity had before, whether it was critical or had other viewers.
  pub live_round_trip :
      (w : World F S) (e : Engine F) (kind : EntityKind) (id : Text)
      → w.monitor ≡ some e
      → is_known ops w.store kind id ≡ true
      → ((handle_live_open ops w kind id).1
          ≡ live_mode manual_realtime (interval_seconds e manual_realtime))
        × ((handle_live_close ops (handle_live_open ops w kind id).0 kind id).1
            ≡ live_response e kind id)
  unfolding handle_live_open handle_live_close handle_live live_response manual_viewer_open
      manual_viewer_close put_state
  live_round_trip w e kind id has known =
      let opened = manual_viewer_open e kind id in
      let closed = manual_viewer_close opened kind id in
      (
        ground
            (arith, has, known, opened_mode e kind id, same_interval e opened manual_realtime refl),
        ground (
          arith,
          has,
          known,
          reopened_mode e kind id,
          same_interval e closed (effective_mode e kind id) refl,
        ),
      )
