-- ===== src/HostStats.antt =====
-- internal/agent/hoststats/hoststats.go: the host's own CPU, memory and network use, from /proc.
-- A file that opens is given as the lines that bufio.Scanner delivers and whether its Err() is set
-- once the loop is left; `none` is a file that does not open. Counters are uint64 and their sums
-- wrap.
pub mod Meminfo
pub mod NetDev
use docker_monitoring.Prelude.{
  ℕ, zero, suc, ◌+◌, ◌-◌, ◌*◌, ◌%◌, ◌^◌, Bool, true, false, not, ◌&&◌, ◌||◌, Option, none, some,
  List, [], ◌∷◌, Text, codes, text_eq, ltb, ◌==◌, if◌then◌else◌,
}
use docker_monitoring.Models.{Float64}
use docker_monitoring.Strings.{has_prefix, trim_space, fields, cut, parse_uint}

pub record File : Type 0 where
  pub lines : List Text
  pub failed : Bool

-- Sample
pub record HostSample (F : Type 0) : Type 0 where
  pub cpu_percent : F
  pub mem_used_bytes : ℕ
  pub mem_total_bytes : ℕ
  pub net_rx_bytes : ℕ
  pub net_tx_bytes : ℕ

pub record CpuJiffies : Type 0 where
  pub user : ℕ
  pub nice : ℕ
  pub system : ℕ
  pub idle : ℕ
  pub iowait : ℕ
  pub irq : ℕ
  pub softirq : ℕ
  pub steal : ℕ

abbrev pub wrapped : ℕ → ℕ
wrapped n = n % 2 ^ 64

unfoldable pub total : CpuJiffies → ℕ
total c = wrapped (c.user + c.nice + c.system + c.idle + c.iowait + c.irq + c.softirq + c.steal)

unfoldable pub idle_total : CpuJiffies → ℕ
idle_total c = wrapped (c.idle + c.iowait)

-- The first `n` values of a line; the array's other places stay 0. A field that is not a number is
-- an error.
unfoldable pub parse_vals : ℕ → List Text → Option (List ℕ)
parse_vals zero parts = some []
parse_vals (suc n) [] = some []
parse_vals (suc n) (part ∷ parts) =
    let rest = parse_vals n parts in
    elim (parse_uint part) [
      | none ↦ none
      | some v ↦ elim rest [ none ↦ none | some vs ↦ some (v ∷ vs) ]
    ]

-- vals[i]
abbrev pub val_at : List ℕ → ℕ → ℕ
val_at [] i = 0
val_at (v ∷ vs) zero = v
val_at (v ∷ vs) (suc i) = val_at vs i

unfoldable pub jiffies_of : List ℕ → CpuJiffies
jiffies_of vals = record {
  user = val_at vals 0;
  nice = val_at vals 1;
  system = val_at vals 2;
  idle = val_at vals 3;
  iowait = val_at vals 4;
  irq = val_at vals 5;
  softirq = val_at vals 6;
  steal = val_at vals 7;
}

-- `xs[1:]` of a list that is not empty.
abbrev pub tail : List Text → List Text
tail [] = []
tail (part ∷ parts) = parts

-- The loop of readCPUJiffies.
unfoldable pub scan_stat : List Text → Option CpuJiffies
scan_stat [] = none
scan_stat (line ∷ rest) =
    let later = scan_stat rest in
    if has_prefix (codes "cpu ") line
    then (elim (parse_vals 8 (tail (fields line))) [
      | none ↦ none
      | some vals ↦ some (jiffies_of vals)
    ])
    else later

unfoldable pub read_cpu_jiffies : Option File → Option CpuJiffies
unfolding scan_stat
read_cpu_jiffies none = none
read_cpu_jiffies (some file) = scan_stat file.lines

-- parseMeminfoKB
unfoldable pub parse_meminfo_kb : Text → Option ℕ
parse_meminfo_kb line = elim (fields line) [
  | [] ↦ none
  | label ∷ values ↦ elim values [ [] ↦ none | value ∷ units ↦ parse_uint value ]
]

-- What readMemory's loop has found: MemTotal and MemAvailable.
pub record MeminfoFound : Type 0 where
  pub mem_total : Option ℕ
  pub mem_available : Option ℕ

abbrev pub is_complete : MeminfoFound → Bool
is_complete found = elim found.mem_total [
  | none ↦ false
  | some _ ↦ elim found.mem_available [ none ↦ false | some _ ↦ true ]
]

-- One round on a line; `none` is a value that does not parse.
unfoldable pub meminfo_line : MeminfoFound → Text → Option MeminfoFound
meminfo_line found line =
    let value = parse_meminfo_kb line in
    if has_prefix (codes "MemTotal:") line
    then elim value [ none ↦ none | some v ↦ some (record found { mem_total = some v }) ]
    else if has_prefix (codes "MemAvailable:") line
    then elim value [ none ↦ none | some v ↦ some (record found { mem_available = some v }) ]
    else some found

-- The loop of readMemory, which is left as soon as both are there.
unfoldable pub scan_meminfo : MeminfoFound → List Text → Option MeminfoFound
unfolding meminfo_line
scan_meminfo found [] = some found
scan_meminfo found (line ∷ rest) = elim (meminfo_line found line) [
  | none ↦ none
  | some next ↦ elim (is_complete next) [ true ↦ some next | false ↦ scan_meminfo next rest ]
]

-- The end of readMemory: bytes used and in all.
unfoldable pub memory_bytes : ℕ → ℕ → ℕ × ℕ
memory_bytes mem_total mem_available =
    let available = if ltb mem_total mem_available then mem_total else mem_available in
    (wrapped ((mem_total - available) * 1024), wrapped (mem_total * 1024))

unfoldable pub read_memory : Option File → Option (ℕ × ℕ)
unfolding scan_meminfo memory_bytes
read_memory none = none
read_memory (some file) =
    elim (scan_meminfo (record { mem_total = none; mem_available = none }) file.lines) [
      | none ↦ none
      | some found ↦ if file.failed then none else elim found.mem_total [
        | none ↦ none
        | some all ↦ elim found.mem_available [
          | none ↦ none
          | some free ↦ some (memory_bytes all free)
        ]
      ]
    ]

-- fields[0] and fields[8], where there are nine and both parse.
unfoldable pub rx_and_tx : List Text → Option (ℕ × ℕ)
rx_and_tx (rx ∷ _ ∷ _ ∷ _ ∷ _ ∷ _ ∷ _ ∷ _ ∷ tx ∷ _) = elim (parse_uint rx) [
  | none ↦ none
  | some received ↦ elim (parse_uint tx) [ none ↦ none | some sent ↦ some (received, sent) ]
]
rx_and_tx _ = none

-- The counters of an interface's line, unless the line is skipped.
unfoldable pub interface_bytes : Text → Option (ℕ × ℕ)
unfolding rx_and_tx
interface_bytes line = elim (cut b':' line) [
  | none ↦ none
  | some (name, counters) ↦
      if text_eq (trim_space name) (codes "lo") then none else rx_and_tx (fields counters)
]

-- The loop of readNetwork behind the two header lines.
unfoldable pub sum_interfaces : ℕ × ℕ → List Text → ℕ × ℕ
unfolding interface_bytes
sum_interfaces sums [] = sums
sum_interfaces (rx, tx) (line ∷ rest) = elim (interface_bytes line) [
  | none ↦ sum_interfaces (rx, tx) rest
  | some (received, sent) ↦ sum_interfaces (wrapped (rx + received), wrapped (tx + sent)) rest
]

-- The lines behind the first two.
abbrev pub body_lines : List Text → List Text
body_lines [] = []
body_lines (first ∷ []) = []
body_lines (first ∷ second ∷ rest) = rest

unfoldable pub read_network : Option File → Option (ℕ × ℕ)
unfolding sum_interfaces
read_network none = none
read_network (some file) =
    if file.failed then none else some (sum_interfaces (0, 0) (body_lines file.lines))

module _ {F : Type 0} ⦃fl : Float64 F⦄ where
  -- cpuPercent
  unfoldable pub busy_percent : CpuJiffies → CpuJiffies → F
  busy_percent a b =
      let total_delta = fl.sub (fl.of_ℕ (total b)) (fl.of_ℕ (total a)) in
      let idle_delta = fl.sub (fl.of_ℕ (idle_total b)) (fl.of_ℕ (idle_total a)) in
      let busy = fl.sub total_delta idle_delta in
      let busy_delta = if fl.lt busy (fl.of_ℕ 0) then fl.of_ℕ 0 else busy in
      if fl.ge (fl.of_ℕ 0) total_delta
      then fl.of_ℕ 0
      else fl.mul (fl.div busy_delta total_delta) (fl.of_ℕ 100)

  -- Collect: the two readings of /proc/stat, whether the context ended between them, and the
  -- other two files.
  unfoldable pub collect_host :
      Option File → Bool → Option File → Option File → Option File → Option (HostSample F)
  unfolding read_cpu_jiffies read_memory read_network busy_percent
  collect_host stat_before cancelled stat_after meminfo net_dev =
      elim (read_cpu_jiffies stat_before) [
        | none ↦ none
        | some first ↦ if cancelled then none else elim (read_cpu_jiffies stat_after) [
          | none ↦ none
          | some second ↦ elim (read_memory meminfo) [
            | none ↦ none
            | some (used, all) ↦ elim (read_network net_dev) [
              | none ↦ none
              | some (rx, tx) ↦ some (record {
                cpu_percent = busy_percent first second;
                mem_used_bytes = used;
                mem_total_bytes = all;
                net_rx_bytes = rx;
                net_tx_bytes = tx;
              })
            ]
          ]
        ]
      ]
