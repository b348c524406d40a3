-- ===== src/HostStats/Meminfo.antt =====
-- /proc/meminfo as the kernel prints it, and readMemory (internal/agent/hoststats/hoststats.go).
use docker_monitoring.Prelude.{
  ℕ, ◌-◌, ◌*◌, ◌^◌, ◌<◌, ◌≡◌, ◌≢◌, refl, ◌∙◌, ap, true, false, none, some, List, [], ◌∷◌, ◌++◌,
  Text, codes, All, arith,
}
use docker_monitoring.Strings.{has_prefix, after_prefix, is_space, fields, format_uint}
use docker_monitoring.Strings.Numbers.{format_uint-All, format_uint-ne-nil, parse_uint-format_uint}
use docker_monitoring.Strings.Lines.{
  Lacks, fields-word, fields-spaces, has_prefix-append, digits-Lacks,
}
use docker_monitoring.HostStats.{
  MeminfoFound, parse_meminfo_kb, meminfo_line, scan_meminfo, memory_bytes, read_memory,
}

-- A label, spaces, a number and the unit.
abbrev pub printed : Text → Text → ℕ → Text
printed label pad n = label ++ (b' ' ∷ (pad ++ (format_uint n ++ (b' ' ∷ codes "kB"))))

abbrev pub Blank : Text → Type 0
Blank = All (λ c. is_space c ≡ true)

parse_meminfo_kb-printed :
    (label pad : Text) (n : ℕ)
    → label ≢ []
    → Lacks is_space label
    → Blank pad
    → n < 2 ^ 64
    → parse_meminfo_kb (printed label pad n) ≡ some n
unfolding parse_meminfo_kb is_space
parse_meminfo_kb-printed label pad n filled clean blank fits =
    let words : fields (printed label pad n) ≡ label ∷ (format_uint n ∷ fields (codes "kB")) =
      fields-word label b' ' (pad ++ (format_uint n ++ (b' ' ∷ codes "kB"))) filled clean refl
      ∙ ap (λ ws. label ∷ ws) (fields-spaces pad (format_uint n ++ (b' ' ∷ codes "kB")) blank)
      ∙ ap (λ ws. label ∷ ws)
          (fields-word (format_uint n) b' ' (codes "kB") (format_uint-ne-nil n)
            (digits-Lacks (format_uint n) (format_uint-All n)) refl) in
    rw (words, parse_meminfo_kb) (parse_uint-format_uint n fits)

-- A line that is about something else.
abbrev pub IsOther : Text → Type 0
IsOther line =
    (has_prefix (codes "MemTotal:") line ≡ false)
    × (has_prefix (codes "MemAvailable:") line ≡ false)

abbrev nothing_found : MeminfoFound
nothing_found = record { mem_total = none; mem_available = none }

abbrev total_found : ℕ → MeminfoFound
total_found n = record { mem_total = some n; mem_available = none }

scan_nothing :
    (others rest : List Text)
    → All IsOther others
    → scan_meminfo nothing_found (others ++ rest) ≡ scan_meminfo nothing_found rest
unfolding scan_meminfo meminfo_line
scan_nothing [] rest h = refl
scan_nothing (line ∷ others) rest h = ground (arith, scan_nothing others rest h.1)

scan_total :
    (n : ℕ) (others rest : List Text)
    → All IsOther others
    → scan_meminfo (total_found n) (others ++ rest) ≡ scan_meminfo (total_found n) rest
unfolding scan_meminfo meminfo_line
scan_total n [] rest h = refl
scan_total n (line ∷ others) rest h = ground (arith, scan_total n others rest h.1)

-- The line of MemTotal, then others, then that of MemAvailable.
found_total :
    (pad : Text) (n : ℕ) (rest : List Text)
    → Blank pad
    → n < 2 ^ 64
    → scan_meminfo nothing_found (printed (codes "MemTotal:") pad n ∷ rest)
      ≡ scan_meminfo (total_found n) rest
unfolding scan_meminfo meminfo_line is_space
found_total pad n rest blank fits = ground (
  arith,
  has_prefix-append (codes "MemTotal:") (b' ' ∷ (pad ++ (format_uint n ++ (b' ' ∷ codes "kB")))),
  parse_meminfo_kb-printed (codes "MemTotal:") pad n (λ e. ground arith)
      (refl, (refl, (refl, (refl, (refl, (refl, (refl, (refl, (refl, tt))))))))) blank fits,
)

found_available :
    (pad : Text) (n m : ℕ) (rest : List Text)
    → Blank pad
    → m < 2 ^ 64
    → scan_meminfo (total_found n) (printed (codes "MemAvailable:") pad m ∷ rest)
      ≡ some (record { mem_total = some n; mem_available = some m })
unfolding scan_meminfo meminfo_line is_space has_prefix after_prefix
found_available pad n m rest blank fits = ground (
  arith,
  parse_meminfo_kb-printed (codes "MemAvailable:") pad m (λ e. ground arith)
      (
        refl,
        (
          refl,
          (
            refl,
            (refl, (refl, (refl, (refl, (refl, (refl, (refl, (refl, (refl, (refl, tt)))))))))),
          ),
        ),
      )
      blank fits,
)

-- readMemory reads back what the kernel prints: from a file with a MemTotal line of `n` kB, later a
-- MemAvailable line of `m` kB, and any lines about other things before, between and after, it
-- returns (n - m) * 1024 bytes used, 0 if more is available than there is, of n * 1024, where
-- `n` is below 2 ^ 54, so that the bytes fit.
pub read_memory-printed :
    (before between after : List Text) (pad pad' : Text) (n m : ℕ)
    → All IsOther before
    → All IsOther between
    → Blank pad
    → Blank pad'
    → n < 2 ^ 54
    → m < 2 ^ 64
    → read_memory (
        some (record {
          lines =
              before
              ++ (printed (codes "MemTotal:") pad n
                  ∷ (between ++ (printed (codes "MemAvailable:") pad' m ∷ after)));
          failed = false;
        }))
      ≡ some ((n - m) * 1024, n * 1024)
unfolding read_memory memory_bytes
read_memory-printed before between after pad pad' n m first second blank blank' fits fits' =
    ground (
      arith,
      scan_nothing before
            (printed (codes "MemTotal:") pad n
              ∷ (between ++ (printed (codes "MemAvailable:") pad' m ∷ after)))
            first
          ∙ found_total pad n (between ++ (printed (codes "MemAvailable:") pad' m ∷ after)) blank
              (omega arith)
          ∙ scan_total n between (printed (codes "MemAvailable:") pad' m ∷ after) second
          ∙ found_available pad' n m after blank' fits',
    )
