-- ===== src/Http.antt =====
-- What a handler of the control plane's two HTTP servers writes: writeJSON, writeError or a status
-- alone (internal/controlplane/api/router.go and internal/controlplane/agentapi/server.go). Encoding
-- the body is encoding/json's.
use docker_monitoring.Prelude.{ℕ, Text}

pub data Response (B : Type 0) : Type 0 where
  json : ℕ → B → Response B
  failure : ℕ → Text → Response B
  no_content : ℕ → Response B
