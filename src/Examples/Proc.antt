-- ===== src/Examples/Proc.antt =====
-- The kernel's files, on concrete inputs.
use docker_monitoring.Prelude.{◌-◌, ◌*◌, ◌≡◌, refl, false, some, [], ◌∷◌, ◌++◌, codes, arith}
use docker_monitoring.Strings.{is_space}
use docker_monitoring.HostStats.{read_memory}
use docker_monitoring.HostStats.Meminfo.{Blank, printed, read_memory-printed}

one_space : Blank (codes " ")
unfolding is_space
one_space = (refl, tt)

read_memory-printed_example :
    read_memory (
      some (record {
        lines =
            []
            ++ (printed (codes "MemTotal:") (codes " ") 100
                ∷ ([] ++ (printed (codes "MemAvailable:") (codes " ") 40 ∷ [])));
        failed = false;
      }))
    ≡ some ((100 - 40) * 1024, 100 * 1024)
read_memory-printed_example =
    read_memory-printed [] [] [] (codes " ") (codes " ") 100 40 tt tt one_space one_space
      (omega arith) (omega arith)
