-- ===== src/Storage/Memory/Events.antt =====
-- The event log of internal/controlplane/storage/memory/memory.go: what ListEvents returns.
use docker_monitoring.Prelude.{
  ℕ, zero, suc, ◌+◌, ◌≡◌, refl, ◌∙◌, ap, inl, inr, false, ◌&&◌, List, [], ◌∷◌, ◌++◌, append_assoc,
  append-nil, length, length-append, keep, leb, arith, Bool-cases, le→leb, lt→not-leb, sym,
}
use mathlib.Core.List.{reverse, reverse-cons}
use docker_monitoring.Prelude.Int.{ℤ, pos, negsuc, leb_ℤ, ltb_ℤ}
use docker_monitoring.Models.{Event}
use docker_monitoring.Storage.{EventFilter, found}
use docker_monitoring.Storage.Memory.{Memory, passes, scan_events, newest_first, list_events}

-- At most the first `n` elements; `bounded` reads a limit that is not positive as none.
abbrev pub take {ℓ} : {A : Type ℓ} → ℕ → List A → List A
take zero xs = []
take (suc n) [] = []
take (suc n) (x ∷ xs) = x ∷ take n xs

abbrev pub bounded {ℓ} : {A : Type ℓ} → ℤ → List A → List A
bounded (negsuc n) xs = xs
bounded (pos zero) xs = xs
bounded (pos (suc n)) xs = take (suc n) xs

scan_unbounded :
    (filter : EventFilter) (out events : List Event)
    → ltb_ℤ (pos 0) filter.limit ≡ false
    → scan_events filter out events ≡ out ++ keep (passes filter) events
unfolding scan_events
scan_unbounded filter out [] h = simp append-nil
scan_unbounded filter out (e ∷ rest) h = elim (Bool-cases (passes filter e)) [
  | inl hit ↦
      rw (hit, h)
        (scan_unbounded filter (out ++ e ∷ []) rest h
          ∙ append_assoc out (e ∷ []) (keep (passes filter) rest))
  | inr skip ↦ rw skip (scan_unbounded filter out rest h)
]

-- The `break` test of ListEvents under a positive limit.
stops :
    (limit : ℤ) (n k : ℕ)
    → limit ≡ pos (suc n)
    → (ltb_ℤ (pos 0) limit && leb_ℤ limit (pos k)) ≡ leb (suc n) k
stops limit n k l = ground arith

scan_bounded :
    (filter : EventFilter) (n room : ℕ) (out events : List Event)
    → filter.limit ≡ pos (suc n)
    → length out + room ≡ n
    → scan_events filter out events ≡ out ++ take (suc room) (keep (passes filter) events)
unfolding scan_events
scan_bounded filter n room out [] l h = simp append-nil
scan_bounded filter n zero out (e ∷ rest) l h = elim (Bool-cases (passes filter e)) [
  | inl hit ↦
      rw (hit, stops filter.limit n (length (out ++ e ∷ [])) l)
        (rw (le→leb (suc n) (length (out ++ e ∷ [])) (omega (arith, length-append out (e ∷ []))))
          refl)
  | inr skip ↦ rw skip (scan_bounded filter n zero out rest l h)
]
scan_bounded filter n (suc room) out (e ∷ rest) l h = elim (Bool-cases (passes filter e)) [
  | inl hit ↦
      rw (hit, stops filter.limit n (length (out ++ e ∷ [])) l)
        (rw
          (lt→not-leb (suc n) (length (out ++ e ∷ [])) (omega (arith, length-append out (e ∷ []))))
          (scan_bounded filter n room (out ++ e ∷ []) rest l
              (omega (arith, length-append out (e ∷ [])))
            ∙ append_assoc out (e ∷ []) _))
  | inr skip ↦ rw skip (scan_bounded filter n (suc room) out rest l h)
]

newest_first_lem : (acc events : List Event) → newest_first acc events ≡ reverse events ++ acc
unfolding newest_first
newest_first_lem acc [] = refl
newest_first_lem acc (e ∷ rest) =
    newest_first_lem (e ∷ acc) rest
    ∙ sym (append_assoc (reverse rest) (e ∷ []) acc)
    ∙ ap (λ xs. xs ++ acc) (sym (reverse-cons e rest))

scan_events_lem :
    (filter : EventFilter) (limit : ℤ) (events : List Event)
    → filter.limit ≡ limit
    → scan_events filter [] events ≡ bounded limit (keep (passes filter) events)
scan_events_lem filter (negsuc n) events l = scan_unbounded filter [] events (ground arith)
scan_events_lem filter (pos zero) events l = scan_unbounded filter [] events (ground arith)
scan_events_lem filter (pos (suc n)) events l = scan_bounded filter n n [] events l (omega arith)

module _ {F : Type 0} where
  -- ListEvents returns the events that pass every criterion of the filter, newest first, and of
  -- those only the first `Limit` if the limit is positive.
  pub list_events-bounded :
      (s : Memory F) (filter : EventFilter)
      → list_events s filter
        ≡ found (bounded filter.limit (keep (passes filter) (reverse s.events)))
  unfolding list_events
  list_events-bounded s filter = ap found (
      ap (scan_events filter []) (newest_first_lem [] s.events ∙ append-nil (reverse s.events))
      ∙ scan_events_lem filter filter.limit (reverse s.events) refl)
