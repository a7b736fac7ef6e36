-- ===== src/Updater.antt =====
-- src/client/updater/file_updater.cpp: which files are outdated, how several threads download and
-- write them, and how the running program is moved aside for a new one. Files are a function from
-- paths to contents. What the updater gets from the network, the hash (libtomcrypt) and what the
-- system answers are parameters.
pub mod Files
pub mod Invariant
pub mod Verified
pub mod Moves
pub mod Completion
pub mod Idle
pub mod Termination
pub mod HostBinary
pub mod Tests
use w3m.Prelude.{
  ℕ, zero, suc, ◌+◌, ◌*◌, ◌/◌, ◌≡◌, ◌≢◌, min, Bool, true, false, not, ◌&&◌, ◌||◌, List, [], ◌∷◌,
  ◌++◌, Option, none, some, leb, ◌==◌, if◌then◌else◌, length, get_elem?, replicate, bytes_eq, codes,
  All,
}
use w3m.Prelude.Outcome.{
  Outcome, Exception, returns, throws, terminates, undefined, failed_to_download, failed_to_write,
  update_cancelled,
}

pub record FileInfo : Type 0 where
  pub name : List ℕ
  pub size : ℕ
  pub hash : List ℕ

-- The contents of the regular files.
abbrev pub Files : Type 0
Files = List ℕ → Option (List ℕ)

abbrev pub put_file : List ℕ → Option (List ℕ) → Files → Files
put_file path contents files = λ p. if bytes_eq p path then contents else files p

-- An updater with what its surroundings do: `join` is `operator/` of `std::filesystem::path`,
-- `get_hash` the hash in hexadecimal, `can_open` says whether a stream to a path can be opened, `stores` what the disk
-- keeps there of what is written, all of it or less,
-- `can_move` whether the system moves a file that exists to a path that is free. `keeps_host` is set
-- in builds that do not replace the program itself.
pub record Updater : Type 0 where
  pub base : List ℕ
  pub process_file : List ℕ
  pub dead_process_file : List ℕ
  pub join : List ℕ → List ℕ → List ℕ
  pub get_hash : List ℕ → List ℕ
  pub can_open : List ℕ → Bool
  pub stores : List ℕ → List ℕ → List ℕ
  pub can_move : List ℕ → List ℕ → Bool
  pub keeps_host : Bool
  pub hardware_concurrency : ℕ

-- `UPDATE_HOST_BINARY`
abbrev pub host_binary : List ℕ
host_binary = codes "w3m.exe"

-- `get_data`: what it returns, or throws, also out of the callback that reports the progress.
pub data Answer : Type 0 where
  received : Option (List ℕ) → Answer
  raised : Exception → Answer

unfoldable pub find_host_file_info : List FileInfo → Option FileInfo
find_host_file_info [] = none
find_host_file_info (file ∷ files) =
    if bytes_eq file.name host_binary then some file else find_host_file_info files

unfoldable pub get_optimal_concurrent_download_count : ℕ → ℕ → ℕ
get_optimal_concurrent_download_count cores file_count =
    let count = min (cores * 2 / 3) file_count in if leb 1 count then count else 1

module _ (u : Updater) where
  open u use {
    base, process_file, dead_process_file, join, get_hash, can_open, stores, can_move, keeps_host,
    hardware_concurrency,
  }

  unfoldable pub get_drive_filename : FileInfo → List ℕ
  get_drive_filename file =
      if bytes_eq file.name host_binary then process_file else join base file.name

  -- The size and the hash of the contents are those of the list.
  unfoldable pub is_current : FileInfo → List ℕ → Bool
  is_current file contents = length contents == file.size && bytes_eq (get_hash contents) file.hash

  abbrev pub is_outdated_on : FileInfo → Option (List ℕ) → Bool
  is_outdated_on file none = true
  is_outdated_on file (some contents) =
      if not (length contents == file.size)
      then true
      else not (bytes_eq (get_hash contents) file.hash)

  unfoldable pub is_outdated_file : FileInfo → Files → Bool
  unfolding get_drive_filename
  is_outdated_file file files =
      if keeps_host && bytes_eq file.name host_binary
      then false
      else is_outdated_on file (files (get_drive_filename file))

  unfoldable pub get_outdated_files : List FileInfo → Files → List FileInfo
  unfolding is_outdated_file
  get_outdated_files [] files = []
  get_outdated_files (info ∷ infos) files =
      let rest = get_outdated_files infos files in
      if is_outdated_file info files then info ∷ rest else rest

  -- `io::write_file` without appending: nothing looks at whether the writing succeeded.
  unfoldable pub write_file : List ℕ → List ℕ → Files → Files × Bool
  write_file path contents files =
      if can_open path
      then (put_file path (some (stores path contents)) files, true)
      else (files, false)

  abbrev written : Files × Bool → Files × Option Exception
  written (files, true) = (files, none)
  written (files, false) = (files, some failed_to_write)

  store_answer : FileInfo → Option (List ℕ) → Files → Files × Option Exception
  unfolding get_drive_filename is_current write_file
  store_answer file none files = (files, some failed_to_download)
  store_answer file (some contents) files =
      if not (is_current file contents)
      then (files, some failed_to_download)
      else written (write_file (get_drive_filename file) contents files)

  -- The files after it, and the exception that comes out of it.
  unfoldable pub update_file : FileInfo → Answer → Files → Files × Option Exception
  unfolding store_answer
  update_file file (received answer) files = store_answer file answer files
  update_file file (raised e) files = (files, some e)

-- Where a thread of `update_files` stands: before the test of the loop, before it takes an index,
-- with a file, with an exception to hand over, or at its end.
pub data Worker : Type 0 where
  checking : Worker
  fetching : Worker
  working : FileInfo → Worker
  failed : Exception → Worker
  finished : Worker

-- What the threads share.
pub record Shared : Type 0 where
  pub files : Files
  pub current_index : ℕ
  pub exception : Option Exception

pub record Download : Type 0 where
  pub shared : Shared
  pub workers : List Worker

abbrev after_update : FileInfo → Shared → Files × Option Exception → Shared × Worker
after_update file s (files, none) = (record s { files = files }, checking)
after_update file s (files, some e) = (record s { files = files }, failed e)

module _ (u : Updater) (outdated_files : List FileInfo) where
  abbrev take_index : Option FileInfo → Shared → Shared × Worker
  take_index none s = (record s { current_index = suc s.current_index }, finished)
  take_index (some file) s = (record s { current_index = suc s.current_index }, working file)

  abbrev check_exception : Option Exception → Worker
  check_exception none = fetching
  check_exception (some e) = finished

  -- One step of a thread; `answer` is what the network gives to one that has a file.
  unfoldable pub worker_step : Answer → Worker → Shared → Shared × Worker
  unfolding update_file
  worker_step answer checking s = (s, check_exception s.exception)
  worker_step answer fetching s = take_index (get_elem? outdated_files s.current_index) s
  worker_step answer (working file) s = after_update file s (update_file u file answer s.files)
  worker_step answer (failed e) s = (record s { exception = some e }, finished)
  worker_step answer finished s = (s, finished)

  -- Any thread that is not at its end may be the next; `answer` is what it gets.
  pub data Step (answer : Answer) (d : Download) : Download → Type 0 where
    pick :
        (before : List Worker) (w : Worker) (after : List Worker)
        → d.workers ≡ before ++ (w ∷ after)
        → w ≢ finished
        → Step answer d (record {
          shared = (worker_step answer w d.shared).0;
          workers = before ++ ((worker_step answer w d.shared).1 ∷ after);
        })

  unfoldable pub started : Files → Download
  started files = record {
    shared = record { files = files; current_index = 0; exception = none };
    workers =
        replicate
          (get_optimal_concurrent_download_count u.hardware_concurrency (length outdated_files))
          checking;
  }

  -- The states that the threads get to in some number of steps.
  pub data Steps (files : Files) : ℕ → Download → Type 0 where
    start : Steps files 0 (started files)
    later :
        {n : ℕ} {answer : Answer} {d e : Download}
        → Steps files n d
        → Step answer d e
        → Steps files (suc n) e

  abbrev pub IsFinished : Download → Type 0
  IsFinished d = All (λ w. w ≡ finished) d.workers

  -- `update_files`, once every thread has been joined: the files and the exception that is thrown
  -- again.
  pub data Updates (files : Files) : Files → Option Exception → Type 0 where
    cancelled : (e : Exception) → Updates files files (some e)
    joined :
        {n : ℕ} {d : Download}
        → Steps files n d
        → IsFinished d
        → Updates files d.shared.files d.shared.exception

module _ (u : Updater) where
  abbrev move_contents : Option (List ℕ) → Option (List ℕ) → List ℕ → List ℕ → Files → Files
  move_contents none there src target files = files
  move_contents (some contents) (some there) src target files = files
  move_contents (some contents) none src target files =
      if u.can_move src target
      then put_file target (some contents) (put_file src none files)
      else files

  -- `io::move_file` (`MoveFileW`), which replaces no file; nothing looks at what it returns.
  unfoldable pub move_file : List ℕ → List ℕ → Files → Files
  move_file src target files = move_contents (files src) (files target) src target files

  unfoldable pub move_current_process_file : Files → Files
  unfolding move_file
  move_current_process_file files = move_file u.process_file u.dead_process_file files

  unfoldable pub restore_current_process_file : Files → Files
  unfolding move_file
  restore_current_process_file files = move_file u.dead_process_file u.process_file files

  -- `update_host_binary`: the program is started again and this run of it ends where the new one
  -- could be written.
  pub data UpdateHostBinary (outdated_files : List FileInfo) (files : Files)
      : Files → Option Exception → Type 0 where
    not_listed :
        find_host_file_info outdated_files ≡ none → UpdateHostBinary outdated_files files files none
    relaunched :
        {host_file : FileInfo} {files' : Files}
        → find_host_file_info outdated_files ≡ some host_file
        → Updates u (host_file ∷ []) (move_current_process_file files) files' none
        → UpdateHostBinary outdated_files files files' (some update_cancelled)
    restored :
        {host_file : FileInfo} {files' : Files} {e : Exception}
        → find_host_file_info outdated_files ≡ some host_file
        → Updates u (host_file ∷ []) (move_current_process_file files) files' (some e)
        → UpdateHostBinary outdated_files files (restore_current_process_file files') (some e)

  -- `run` on the list of the server, from `get_outdated_files` on.
  pub data Run (infos : List FileInfo) (files : Files) : Files → Option Exception → Type 0 where
    up_to_date : get_outdated_files u infos files ≡ [] → Run infos files files none
    stopped :
        {files' : Files} {e : Exception}
        → get_outdated_files u infos files ≢ []
        → UpdateHostBinary (get_outdated_files u infos files) files files' (some e)
        → Run infos files files' (some e)
    updated :
        {files' files'' : Files} {result : Option Exception}
        → get_outdated_files u infos files ≢ []
        → UpdateHostBinary (get_outdated_files u infos files) files files' none
        → Updates u (get_outdated_files u infos files) files' files'' result
        → Run infos files files'' result
