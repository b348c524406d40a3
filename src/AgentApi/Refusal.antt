-- ===== src/AgentApi/Refusal.antt =====
-- What an agent that may not enrol is told (internal/controlplane/agentapi/server.go).
use docker_monitoring.Prelude.{◌≡◌, ◌⊎◌, false, ◌||◌, Option, some, Text, codes, is_empty, arith}
use docker_monitoring.Storage.{Store}
use docker_monitoring.World.{Env, World, ticked}
use docker_monitoring.Http.{failure}
use docker_monitoring.Pki.{X509}
use docker_monitoring.Registry.{
  RegistryError, token_invalid, host_not_found, err, enroll_check, enroll,
}
use docker_monitoring.AgentApi.{EnrollRequest, enroll_failure, enroll_with, handle_enroll}

module _ {F S : Type 0} (env : Env) (ops : Store F S) (x : X509)
    (decode_csr_pem : Text → Option Text) where
  -- Hosts cannot be probed through enrolment: for a well-formed request, a host that does not exist
  -- and a token that is not accepted get the same status and message, and nothing is written.
  pub handle_enroll-refused :
      (w : World F S) (req : EnrollRequest) (csr_der : Text) (e : RegistryError)
      → (is_empty req.host_id || (is_empty req.token || is_empty req.csr_pem)) ≡ false
      → decode_csr_pem req.csr_pem ≡ some csr_der
      → enroll_check env ops w req.host_id req.token ≡ err e
      → (e ≡ token_invalid) ⊎ (e ≡ host_not_found)
      → handle_enroll env ops x decode_csr_pem w (some req)
        ≡ (ticked w, failure 401 (codes "enrollment failed"))
  unfolding handle_enroll enroll_with enroll enroll_failure
  handle_enroll-refused w req csr_der e filled decoded refused which = ground arith
