-- ===== src/Updater/Tests.antt =====
-- A run of src/client/updater/file_updater.cpp, with two threads, on a list of three files of which
-- two are outdated.
use w3m.Prelude.{
  ℕ, ◌≡◌, ◌≢◌, refl, ap, ◌⊎◌, true, false, List, [], ◌∷◌, ◌++◌, Option, none, some, arith, All, In,
  length, ◌+◌, ◌*◌, ◌≤◌, codes, bytes_eq, if◌then◌else◌,
}
use w3m.Prelude.Outcome.{Exception, failed_to_download}
use w3m.Updater.{
  FileInfo, Files, put_file, Updater, Answer, received, get_drive_filename, is_current,
  get_outdated_files, find_host_file_info, checking, fetching, working, finished, Download,
  worker_step, Step, pick, started, Steps, start, later, IsFinished, Updates, cancelled, joined,
  UpdateHostBinary, restored, get_optimal_concurrent_download_count, move_current_process_file,
  restore_current_process_file,
}
use w3m.Updater.Verified.{Updates-verified}
use w3m.Updater.Completion.{Updates-complete}
use w3m.Updater.Termination.{Steps-terminates}
use w3m.Updater.HostBinary.{HostOutcome, update_host_binary_lem}

-- The hash of this system is the text itself.
abbrev toy : Updater
toy = record {
  base = codes "d";
  process_file = codes "p";
  dead_process_file = codes "po";
  join = λ base name. base ++ (b'/' ∷ name);
  get_hash = λ contents. contents;
  can_open = λ path. true;
  stores = λ path contents. contents;
  can_move = λ src target. true;
  keeps_host = false;
  hardware_concurrency = 3;
}

abbrev entry : List ℕ → List ℕ → ℕ → FileInfo
entry name hash size = record { name = name; size = size; hash = hash }

abbrev one : FileInfo
one = entry (codes "a") (codes "1") 1

abbrev two : FileInfo
two = entry (codes "b") (codes "22") 2

abbrev three : FileInfo
three = entry (codes "c") (codes "3") 1

abbrev infos : List FileInfo
infos = one ∷ two ∷ three ∷ []

-- `b` is up to date.
abbrev disk : Files
disk =
    put_file (codes "d/b") (some (codes "22"))
      (put_file (codes "d/c") (some (codes "0")) (λ p. none))

abbrev after : Files
after = put_file (codes "d/a") (some (codes "1")) (put_file (codes "d/c") (some (codes "3")) disk)

outdated : get_outdated_files toy infos disk ≡ one ∷ three ∷ []
unfolding get_outdated_files bytes_eq
outdated = refl

abbrev answer : List ℕ → Answer
answer text = received (some text)

-- The second thread ends its download first.
downloaded : Updates toy (one ∷ three ∷ []) disk after none
unfolding started worker_step get_optimal_concurrent_download_count bytes_eq
downloaded =
    joined
      (later {answer = answer []}
        (later {answer = answer []}
          (later {answer = answer []}
            (later {answer = answer []}
              (later {answer = answer (codes "1")}
                (later {answer = answer (codes "3")}
                  (later {answer = answer []}
                    (later {answer = answer []}
                      (later {answer = answer []}
                        (later {answer = answer []} start
                          (pick [] checking (checking ∷ []) refl (λ e. cc)))
                        (pick [] fetching (checking ∷ []) refl (λ e. cc)))
                      (pick (working one ∷ []) checking [] refl (λ e. cc)))
                    (pick (working one ∷ []) fetching [] refl (λ e. cc)))
                  (pick (working one ∷ []) (working three) [] refl (λ e. cc)))
                (pick [] (working one) (checking ∷ []) refl (λ e. cc)))
              (pick [] checking (checking ∷ []) refl (λ e. cc)))
            (pick [] fetching (checking ∷ []) refl (λ e. cc)))
          (pick (finished ∷ []) checking [] refl (λ e. cc)))
        (pick (finished ∷ []) fetching [] refl (λ e. cc)))
      (refl, (refl, tt))

of_path : List ℕ → FileInfo
of_path path =
    if bytes_eq path (codes "d/a") then one else if bytes_eq path (codes "d/b") then two else three

Updates-verified_example :
    (after (codes "d/a") ≡ disk (codes "d/a"))
    ⊎ ((file : FileInfo) × (contents : List ℕ) × In file (one ∷ three ∷ [])
        × (get_drive_filename toy file ≡ codes "d/a")
        × (after (codes "d/a") ≡ some contents)
        × (is_current toy file contents ≡ true))
Updates-verified_example =
    Updates-verified toy (one ∷ three ∷ []) disk after none downloaded (codes "d/a")

Updates-complete_example :
    All
      (λ file.
        (g : FileInfo) × (contents : List ℕ) × In g (one ∷ three ∷ [])
        × (get_drive_filename toy g ≡ get_drive_filename toy file)
        × (after (get_drive_filename toy file) ≡ some contents)
        × (is_current toy g contents ≡ true))
      (one ∷ three ∷ [])
Updates-complete_example = Updates-complete toy (one ∷ three ∷ []) disk after downloaded

first_step : (d : Download) × Steps toy infos disk 1 d
unfolding started worker_step get_optimal_concurrent_download_count
first_step = (_, later {answer = answer []} start (pick [] checking (checking ∷ []) refl (λ e. cc)))

Steps-terminates_example :
    (1 ≤ 2 * get_optimal_concurrent_download_count 3 3 + 9)
    × (IsFinished toy infos first_step.0
        ⊎ ((e : Download) × Step toy infos (answer (codes "1")) first_step.0 e))
Steps-terminates_example =
    Steps-terminates toy infos disk 1 first_step.0 first_step.1 (answer (codes "1"))

abbrev program : FileInfo
program = entry (codes "w3m.exe") (codes "new") 3

abbrev before : Files
before = put_file (codes "p") (some (codes "old")) disk

abbrev aside : Files
aside = put_file (codes "po") (some (codes "old")) (put_file (codes "p") none before)

-- The download fails, and the program is moved back.
failed_update :
    UpdateHostBinary toy
      (program ∷ [])
      before
      (restore_current_process_file toy aside)
      (some failed_to_download)
unfolding find_host_file_info bytes_eq move_current_process_file
failed_update = restored {host_file = program} refl (cancelled failed_to_download)

apart : toy.process_file ≢ toy.dead_process_file
apart e = absurd (omega (arith, ap length e))

is_listed : find_host_file_info (program ∷ []) ≡ some program
unfolding find_host_file_info bytes_eq
is_listed = refl

old_program : before (codes "p") ≡ some (codes "old")
unfolding bytes_eq
old_program = refl

no_file : before (codes "po") ≡ none
unfolding bytes_eq
no_file = refl

update_host_binary_lem_example :
    ((e : Exception) × (◌≡◌ {A = Option Exception} (some failed_to_download) (some e)))
    × HostOutcome toy before program (codes "old") (restore_current_process_file toy aside)
update_host_binary_lem_example =
    update_host_binary_lem toy (program ∷ []) before program (codes "old") is_listed apart
      old_program no_file refl refl (restore_current_process_file toy aside)
      (some failed_to_download) failed_update
