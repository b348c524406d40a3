-- ===== src/Registry/Enrollment.antt =====
-- Enrolment tokens of internal/controlplane/agentregistry/registry.go: their issue, their use
-- and their end.
use docker_monitoring.Prelude.{
  ℕ, suc, ◌+◌, ◌≤◌, ◌≡◌, ◌≢◌, ap, ◌∙◌, inl, inr, true, false, none, some, [], Text, text_eq_iff,
  text_eq_refl, arith, Option-cases,
}
use docker_monitoring.Models.{Host}
use docker_monitoring.Storage.{Store, found}
use docker_monitoring.Storage.Laws.{HostLaws}
use docker_monitoring.World.{Env, World, ticked, drawn}
use docker_monitoring.Recorder.{RecordInput, record_event, push_event, event_from}
use docker_monitoring.Pki.{X509, issued, issue_agent_cert}
use docker_monitoring.Registry.{
  token_invalid, Reply, ok, err, enrollment_token_ttl, agent_cert_valid_for, with_token, enrolled,
  enrolled_input, save_host, issue_enrollment_token, token_accepted, enroll_check, enroll_commit,
  enroll,
}

-- What Enroll demands of the host's record.
pub record Accepted (env : Env) (host : Host) (token : Text) (now : ℕ) : Type 0 where
  pub has_token : host.enrollment_token_hash ≢ []
  pub not_enrolled : host.agent_enrolled ≡ false
  pub matches : env.hash_token token ≡ host.enrollment_token_hash
  pub issued_at : ℕ
  pub was_issued : host.enrollment_issued_at ≡ some issued_at
  pub in_time : now ≤ issued_at + enrollment_token_ttl

guards_met :
    (env : Env) (host : Host) (token : Text) (now : ℕ)
    → token_accepted env host token now ≡ true
    → Accepted env host token now
unfolding token_accepted
guards_met env host token now h = elim (Option-cases host.enrollment_issued_at) [
  | inl e ↦ absurd (ground arith)
  | inr (at, e) ↦ record {
    has_token = λ empty. ground arith;
    not_enrolled = ground arith;
    matches = ground (arith, text_eq_iff (env.hash_token token) host.enrollment_token_hash);
    issued_at = at;
    was_issued = e;
    in_time = ground arith;
  }
]

guards_pass :
    (env : Env) (host : Host) (token : Text) (now : ℕ)
    → Accepted env host token now
    → token_accepted env host token now ≡ true
unfolding token_accepted
guards_pass env host token now a =
    rw a.was_issued
      (ground (arith, a.has_token, text_eq_iff (env.hash_token token) host.enrollment_token_hash))

module _ {F S : Type 0} (env : Env) (ops : Store F S) where
  -- The store after an event is recorded.
  pub record_event-store :
      (w : World F S) (input : RecordInput)
      → (record_event env ops w input).0.store
        ≡ (ops.append_event w.store (env.clock w.reads) (event_from env ops w input)).0
  unfolding record_event push_event
  record_event-store w input = ground arith

module _ {F S : Type 0} (env : Env) (ops : Store F S) (x : X509) where
  -- The world once Enroll has written the host back.
  abbrev saved : World F S → Host → Text → World F S
  saved w host cert = record (ticked (drawn w)) {
    store = (ops.update_host w.store (enrolled env host cert)).0;
  }

  enroll_commit-parts :
      (w : World F S) (host_id csr_der cert : Text) (host : Host)
      → (enroll_commit env ops x w host_id csr_der host).1 ≡ ok cert
      → ((ops.update_host w.store (enrolled env host cert)).1 ≡ none)
        × ((enroll_commit env ops x w host_id csr_der host).0
            ≡ (record_event env ops (saved w host cert) (enrolled_input host)).0)
  unfolding enroll_commit save_host
  enroll_commit-parts w host_id csr_der cert host e = ground arith

  enroll-parts :
      (w : World F S) (host_id token csr_der cert : Text)
      → (enroll env ops x w host_id token csr_der).1 ≡ ok cert
      → (host : Host) × (ops.get_host w.store host_id ≡ found host)
        × (token_accepted env host token (env.clock w.reads) ≡ true)
        × ((enroll_commit env ops x (ticked w) host_id csr_der host).1 ≡ ok cert)
        × (enroll env ops x w host_id token csr_der
            ≡ enroll_commit env ops x (ticked w) host_id csr_der host)
  unfolding enroll enroll_check
  enroll-parts w host_id token csr_der cert e = ground arith

  -- Enroll returns a certificate only if the host exists, has an unused token whose hash is that of
  -- the presented one and that was issued at most 15 minutes ago, and is not enrolled.
  pub enroll-Accepted :
      (w : World F S) (host_id token csr_der cert : Text)
      → (enroll env ops x w host_id token csr_der).1 ≡ ok cert
      → (host : Host) × (ops.get_host w.store host_id ≡ found host)
        × Accepted env host token (env.clock w.reads)
  enroll-Accepted w host_id token csr_der cert e =
      let (host, got, accepted, _, _) = enroll-parts w host_id token csr_der cert e in
      (host, got, guards_met env host token (env.clock w.reads) accepted)

module _ {F S : Type 0} (env : Env) (ops : Store F S) (x : X509) (laws : HostLaws ops) where
  -- The host's record after a commit that returned a certificate.
  pub enroll_commit-stored :
      (w : World F S) (host_id csr_der cert : Text) (host : Host)
      → laws.IsValid w.store
      → ops.get_host w.store host_id ≡ found host
      → (enroll_commit env ops x w host_id csr_der host).1 ≡ ok cert
      → ops.get_host (enroll_commit env ops x w host_id csr_der host).0.store host_id
        ≡ found (enrolled env host cert)
  enroll_commit-stored w host_id csr_der cert host v got done =
      let (wrote, after) = enroll_commit-parts env ops x w host_id csr_der cert host done in
      ap (λ (u : World F S). ops.get_host u.store host_id) after
      ∙ ap (λ (s : S). ops.get_host s host_id)
          (record_event-store env ops (saved env ops x w host cert) (enrolled_input host))
      ∙ laws.get_host-append _ _ _ host_id
      ∙ laws.get_host-update w.store (enrolled env host cert) host_id wrote
      ∙ ground (arith, text_eq_iff host.id host_id, laws.get_host-id w.store host_id host v got)

  enroll-stored :
      (w : World F S) (host_id token csr_der cert : Text)
      → laws.IsValid w.store
      → (enroll env ops x w host_id token csr_der).1 ≡ ok cert
      → (host : Host) × (ops.get_host (enroll env ops x w host_id token csr_der).0.store host_id
          ≡ found (enrolled env host cert))
  enroll-stored w host_id token csr_der cert v e =
      let (host, got, _, done, whole) = enroll-parts env ops x w host_id token csr_der cert e in
      (
        host,
        ap (λ (r : World F S × Reply Text). ops.get_host r.0.store host_id) whole
            ∙ enroll_commit-stored (ticked w) host_id csr_der cert host v got done,
      )

  burnt :
      (host : Host) (cert token : Text) (now : ℕ)
      → token_accepted env (enrolled env host cert) token now ≡ false
  unfolding token_accepted
  burnt host cert token now = ground arith

  refused_of :
      (u : World F S) (host_id token csr : Text) (host : Host)
      → ops.get_host u.store host_id ≡ found host
      → token_accepted env host token (env.clock u.reads) ≡ false
      → (enroll env ops x u host_id token csr).1 ≡ err token_invalid
  unfolding enroll enroll_check
  refused_of u host_id token csr host got bad = ground arith

  -- A token is good once: after an enrolment that returned a certificate, any further enrolment of
  -- the host is refused, with whatever token and request and at whatever time, as long as only
  -- the clock and the random generator have moved on.
  pub enroll_once :
      (w : World F S) (host_id token csr_der cert : Text) (reads draws : ℕ) (again csr : Text)
      → laws.IsValid w.store
      → (enroll env ops x w host_id token csr_der).1 ≡ ok cert
      → (enroll env ops x
          (record (enroll env ops x w host_id token csr_der).0 { reads = reads; draws = draws })
          host_id
          again
          csr).1
        ≡ err token_invalid
  enroll_once w host_id token csr_der cert reads draws again csr v e =
      let (host, stored) = enroll-stored w host_id token csr_der cert v e in
      refused_of _ host_id again csr (enrolled env host cert) stored
        (burnt host cert again (env.clock reads))

  issue-parts :
      (w : World F S) (host_id token : Text)
      → (issue_enrollment_token env ops w host_id).1 ≡ ok token
      → (host : Host) × (ops.get_host w.store host_id ≡ found host)
        × ((ops.update_host w.store (with_token host (env.hash_token token) (env.clock w.reads))).1
            ≡ none)
        × ((issue_enrollment_token env ops w host_id).0.store
            ≡ (ops.update_host w.store
                (with_token host (env.hash_token token) (env.clock w.reads))).0)
  unfolding issue_enrollment_token save_host
  issue-parts w host_id token e = ground arith

  accepts_issued :
      (host : Host) (token : Text) (at now : ℕ)
      → env.hash_token token ≢ []
      → now ≤ at + enrollment_token_ttl
      → token_accepted env (with_token host (env.hash_token token) at) token now ≡ true
  unfolding token_accepted
  accepts_issued host token at now nonempty in_time =
      ground (arith, text_eq_refl (env.hash_token token))

  completes :
      (u : World F S) (host_id token csr cert : Text) (host : Host)
      → ops.get_host u.store host_id ≡ found host
      → token_accepted env host token (env.clock u.reads) ≡ true
      → issue_agent_cert x u.draws (env.clock (suc u.reads)) csr host_id agent_cert_valid_for
        ≡ issued cert
      → (ops.update_host u.store (enrolled env host cert)).1 ≡ none
      → (enroll env ops x u host_id token csr).1 ≡ ok cert
  unfolding enroll enroll_check enroll_commit save_host
  completes u host_id token csr cert host got accepted signs writes = ground arith

  -- An issued token enrols its host: whenever the clock is at most 15 minutes past the issue, the
  -- hash of the token is not empty, the authority signs the request and the store takes writes of the host,
  -- the enrolment that presents the token to the store as the issue left it returns the
  -- certificate.
  pub issue_then_enroll :
      (w : World F S) (host_id token csr cert : Text) (reads draws : ℕ)
      → laws.IsValid w.store
      → (issue_enrollment_token env ops w host_id).1 ≡ ok token
      → env.hash_token token ≢ []
      → env.clock reads ≤ env.clock w.reads + enrollment_token_ttl
      → issue_agent_cert x draws (env.clock (suc reads)) csr host_id agent_cert_valid_for
        ≡ issued cert
      → ((h : Host)
          → h.id ≡ host_id
          → (ops.update_host (issue_enrollment_token env ops w host_id).0.store h).1 ≡ none)
      → (enroll env ops x
          (record (issue_enrollment_token env ops w host_id).0 { reads = reads; draws = draws })
          host_id
          token
          csr).1
        ≡ ok cert
  issue_then_enroll w host_id token csr cert reads draws v e nonempty in_time signs writes =
      let (host, got, wrote, after) = issue-parts w host_id token e in
      let at = env.clock w.reads in
      let named = with_token host (env.hash_token token) at in
      completes _ host_id token csr cert named
        (ap (λ (s : S). ops.get_host s host_id) after
          ∙ laws.get_host-update w.store named host_id wrote
          ∙ ground
              (arith, text_eq_iff host.id host_id, laws.get_host-id w.store host_id host v got))
        (accepts_issued host token at (env.clock reads) nonempty in_time) signs
        (writes (enrolled env named cert) (laws.get_host-id w.store host_id host v got))
