-- ===== src/SqlStore/Arguments.antt =====
-- The placeholders of ListEvents' query (internal/controlplane/storage/sqlstore/event.go and store.go).
use docker_monitoring.Prelude.{ℕ, suc, [], ◌∷◌, Text, ◌==◌, if◌then◌else◌}

-- How often a byte stands in a text.
unfoldable pub count_byte : ℕ → Text → ℕ
count_byte b [] = 0
count_byte b (c ∷ s) = let rest = count_byte b s in if c == b then suc rest else rest
