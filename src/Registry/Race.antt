-- ===== src/Registry/Race.antt =====
-- Enroll takes no lock between reading the host and writing it back
-- (internal/controlplane/agentregistry/registry.go): two requests may both read before either writes.
use docker_monitoring.Prelude.{ℕ, ◌≡◌, none, Text, arith}
use docker_monitoring.Models.{Host}
use docker_monitoring.Storage.{found}
use docker_monitoring.Storage.Memory.{Memory, get_host, update_host}
use docker_monitoring.Storage.Memory.Instance.{memory_store}
use docker_monitoring.Storage.Memory.Keys.{IsWellKeyed}
use docker_monitoring.Storage.Laws.{memory_laws}
use docker_monitoring.World.{Env, World}
use docker_monitoring.Pki.{X509, issued, issue_agent_cert}
use docker_monitoring.Registry.{
  ok, agent_cert_valid_for, enrolled, enroll_check, enroll_commit, save_host,
}
use docker_monitoring.Registry.Enrollment.{enroll_commit-stored}

module _ {F : Type 0} where
  update_known :
      (s : Memory F) (h known : Host) → get_host s h.id ≡ found known → (update_host s h).1 ≡ none
  unfolding get_host update_host
  update_known s h known e = ground arith

module _ {F : Type 0} (env : Env) (x : X509) where
  commit_succeeds :
      (w : World F (Memory F)) (csr cert : Text) (host known : Host)
      → get_host w.store host.id ≡ found known
      → issue_agent_cert x w.draws (env.clock w.reads) csr host.id agent_cert_valid_for
        ≡ issued cert
      → (enroll_commit env (memory_store F) x w host.id csr host).1 ≡ ok cert
  unfolding enroll_commit save_host
  commit_succeeds w csr cert host known got signs =
      ground (arith, update_known w.store (enrolled env host cert) known got)

  read_of_check :
      (w : World F (Memory F)) (host_id token : Text) (host : Host)
      → enroll_check env (memory_store F) w host_id token ≡ ok host
      → get_host w.store host_id ≡ found host
  unfolding enroll_check
  read_of_check w host_id token host e = ground arith

  -- One token can enrol twice over the in-memory store. Where a request has passed the guards of
  -- Enroll on a host's record, two commits on that record, the second after the first has burnt the
  -- token, both return a certificate, for an authority that signs every request (`cert_for`).
  pub enroll_twice :
      (w : World F (Memory F)) (token csr csr' : Text) (host : Host)
      (cert_for : ℕ → ℕ → Text → Text)
      → IsWellKeyed w.store
      → enroll_check env (memory_store F) w host.id token ≡ ok host
      → ((draw now : ℕ) (request : Text)
          → issue_agent_cert x draw now request host.id agent_cert_valid_for
            ≡ issued (cert_for draw now request))
      → (let first = enroll_commit env (memory_store F) x w host.id csr host in
          let u = first.0 in
          (first.1 ≡ ok (cert_for w.draws (env.clock w.reads) csr))
          × ((enroll_commit env (memory_store F) x u host.id csr' host).1
              ≡ ok (cert_for u.draws (env.clock u.reads) csr')))
  enroll_twice w token csr csr' host cert_for v passed signs =
      let got = read_of_check w host.id token host passed in
      let cert = cert_for w.draws (env.clock w.reads) csr in
      let done = commit_succeeds w csr cert host host got (signs w.draws (env.clock w.reads) csr) in
      let u = (enroll_commit env (memory_store F) x w host.id csr host).0 in
      (
        done,
        commit_succeeds u csr' (cert_for u.draws (env.clock u.reads) csr') host
            (enrolled env host cert)
            (enroll_commit-stored env (memory_store F) x memory_laws w host.id csr cert host v got
              done)
            (signs u.draws (env.clock u.reads) csr'),
      )
