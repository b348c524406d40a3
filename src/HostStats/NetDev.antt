-- ===== src/HostStats/NetDev.antt =====
-- The sums over /proc/net/dev (internal/agent/hoststats/hoststats.go).
use docker_monitoring.Prelude.{
  ℕ, ◌+◌, ◌≡◌, inl, inr, false, none, some, List, [], ◌∷◌, ◌++◌, Text, codes, text_eq, arith,
  Option-cases,
}
use docker_monitoring.Strings.{is_space, trim_left, trim_right, trim_space, cut}
use docker_monitoring.HostStats.Meminfo.{Blank}
use docker_monitoring.HostStats.{wrapped, interface_bytes, sum_interfaces, read_network}

-- What one line adds to the bytes received, and to those sent.
abbrev pub received_by : Text → ℕ
received_by line = elim (interface_bytes line) [ none ↦ 0 | some b ↦ b.0 ]

abbrev pub sent_by : Text → ℕ
sent_by line = elim (interface_bytes line) [ none ↦ 0 | some b ↦ b.1 ]

-- Sums without a bound.
abbrev pub sum_of : (Text → ℕ) → List Text → ℕ
sum_of f [] = 0
sum_of f (line ∷ rest) = f line + sum_of f rest

sum_interfaces_lem :
    (rx tx : ℕ) (lines : List Text)
    → sum_interfaces (wrapped rx, wrapped tx) lines
      ≡ (wrapped (rx + sum_of received_by lines), wrapped (tx + sum_of sent_by lines))
unfolding sum_interfaces
sum_interfaces_lem rx tx [] = ground arith
sum_interfaces_lem rx tx (line ∷ rest) = elim (Option-cases (interface_bytes line)) [
  | inl skipped ↦ ground (arith, skipped, sum_interfaces_lem rx tx rest)
  | inr (b, counted) ↦ ground (arith, counted, sum_interfaces_lem (rx + b.0) (tx + b.1) rest)
]

cut_lo :
    (pad counters : Text)
    → Blank pad
    → cut b':' (pad ++ (codes "lo:" ++ counters)) ≡ some (pad ++ codes "lo", counters)
unfolding cut is_space
cut_lo [] counters blank = ground arith
cut_lo (c ∷ pad) counters blank = ground (arith, cut_lo pad counters blank.1)

trim_left_lo : (pad : Text) → Blank pad → trim_left (pad ++ codes "lo") ≡ codes "lo"
unfolding trim_left is_space
trim_left_lo [] blank = ground arith
trim_left_lo (c ∷ pad) blank = ground (arith, trim_left_lo pad blank.1)

interface_bytes_lo :
    (pad counters : Text) → Blank pad → interface_bytes (pad ++ (codes "lo:" ++ counters)) ≡ none
unfolding interface_bytes trim_space trim_right is_space text_eq
interface_bytes_lo pad counters blank =
    ground (arith, cut_lo pad counters blank, trim_left_lo pad blank)

-- readNetwork adds up, modulo 2 ^ 64, what each line behind the two headers says was received and
-- sent, each once, where a line that does not parse adds nothing; and a line about the loopback
-- "lo", however indented and whatever its counters, adds nothing.
pub read_network-sum_of :
    (first second pad counters : Text) (lines : List Text)
    → Blank pad
    → (read_network (some (record { lines = first ∷ (second ∷ lines); failed = false }))
        ≡ some (wrapped (sum_of received_by lines), wrapped (sum_of sent_by lines)))
      × (received_by (pad ++ (codes "lo:" ++ counters)) ≡ 0)
      × (sent_by (pad ++ (codes "lo:" ++ counters)) ≡ 0)
unfolding read_network
read_network-sum_of first second pad counters lines blank = (
  ground (arith, sum_interfaces_lem 0 0 lines),
  ground (arith, interface_bytes_lo pad counters blank),
  ground (arith, interface_bytes_lo pad counters blank),
)
