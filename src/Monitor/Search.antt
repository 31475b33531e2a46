-- ===== src/Monitor/Search.antt =====
-- The search in /proc (`process_monitor_search_proc_entry` and `process_monitor_search_proc`,
-- src/redapid/process_monitor.c). What the directory and its files contain is a parameter.
use red_brick_apid.Base.{
  ℕ, Bool, true, false, not, ◌&&◌, ◌||◌, List, [], ◌∷◌, arith, leb, ◌==◌, if◌then◌else◌, ◌≡◌, refl,
  ◌≢◌,
}
use red_brick_apid.Monitor.{SearchResult, search_failed, not_found, found}

-- /proc/<entry>/cmdline; `contents` is what `robust_fread` reads, at most 1023 bytes.
pub data Cmdline : Type 0 where
  no_file cannot_open cannot_read : Cmdline
  contents : List ℕ → Cmdline

-- An entry of /proc; `name_fits` says that the file's name could be formatted.
pub record ProcEntry : Type 0 where
  pub is_directory : Bool
  pub name : List ℕ
  pub name_fits : Bool
  pub cmdline : Cmdline

-- `strspn(entry_name, "0123456789") == strlen(entry_name)`
abbrev pub all_digits : List ℕ → Bool
all_digits [] = true
all_digits (c ∷ name) = leb 48 c && (leb c 57 && all_digits name)

-- `strncmp(cmdline, prefix, strlen(prefix)) == 0`, for a prefix without zeros; a zero follows the
-- bytes that were read.
abbrev pub begins_with : List ℕ → List ℕ → Bool
begins_with [] bytes = true
begins_with (c ∷ prefix) [] = false
begins_with (c ∷ prefix) (b ∷ bytes) = b == c && begins_with prefix bytes

-- `process_monitor_search_proc_entry`
unfoldable pub search_proc_entry : List ℕ → ProcEntry → SearchResult
search_proc_entry prefix e =
    if not (all_digits e.name)
    then not_found
    else if not e.name_fits
    then search_failed
    else elim e.cmdline [
      | no_file ↦ not_found
      | cannot_open ↦ search_failed
      | cannot_read ↦ search_failed
      | contents bytes ↦ if begins_with prefix bytes then found else not_found
    ]

-- The loop over the entries; `ends_well` says that `readdir` came to the end without an error.
unfoldable pub search_entries : List ℕ → Bool → List ProcEntry → SearchResult
search_entries prefix ends_well [] = if ends_well then not_found else search_failed
search_entries prefix ends_well (e ∷ entries) =
    let rest = search_entries prefix ends_well entries in
    if e.is_directory
    then elim (search_proc_entry prefix e) [
      | search_failed ↦ search_failed
      | not_found ↦ rest
      | found ↦ found
    ]
    else rest

-- `process_monitor_search_proc`
unfoldable pub search_proc : List ℕ → Bool → Bool → List ProcEntry → SearchResult
search_proc prefix opens ends_well entries =
    if opens then search_entries prefix ends_well entries else search_failed

-- Is the entry a process with the command line?
abbrev pub is_process : List ℕ → ProcEntry → Bool
is_process prefix e =
    e.is_directory
    && (all_digits e.name
        && elim e.cmdline [ contents bytes ↦ begins_with prefix bytes | _ ↦ false ])

abbrev pub any_process : List ℕ → List ProcEntry → Bool
any_process prefix [] = false
any_process prefix (e ∷ entries) = is_process prefix e || any_process prefix entries

-- Every process directory can be read, or has no command line.
abbrev pub AreReadable : List ProcEntry → Type 0
AreReadable [] = Unit {0}
AreReadable (e ∷ entries) =
    (e.name_fits ≡ true)
    × (e.cmdline ≢ cannot_open)
    × (e.cmdline ≢ cannot_read)
    × AreReadable entries

search_entries-any_process :
    (prefix : List ℕ) (entries : List ProcEntry)
    → AreReadable entries
    → search_entries prefix true entries ≡ (if any_process prefix entries then found else not_found)
unfolding search_entries search_proc_entry
search_entries-any_process prefix [] readable = refl
search_entries-any_process prefix (e ∷ entries) (fits, opens, reads, rest) =
    ground (arith, search_entries-any_process prefix entries rest)

-- When /proc can be read to its end, and every entry's file name fits and its file can be read or
-- is missing, `process_monitor_search_proc` answers that it has found the process exactly when some
-- directory of /proc that is named by a number has a command line with the prefix, and that it has
-- not found it otherwise.
pub search_proc-any_process :
    (prefix : List ℕ) (entries : List ProcEntry)
    → AreReadable entries
    → search_proc prefix true true entries
      ≡ (if any_process prefix entries then found else not_found)
unfolding search_proc
search_proc-any_process prefix entries readable = search_entries-any_process prefix entries readable
