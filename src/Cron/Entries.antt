-- ===== src/Cron/Entries.antt =====
-- `cron_add_entry` and `cron_remove_entry` on every path (src/redapid/cron.c).
use red_brick_apid.Base.{
  same_name, set_at, same_name_refl, same_name-sym, subst, ℕ, ◌+◌, ◌-◌, Bool, true, false, Option,
  none, some, List, [], ◌∷◌, arith, ◌≡◌, refl, ◌≢◌, ◌<◌, ◌↔◌, length, ap, sym, ◌∙◌, Bool-cases,
  Option-cases, inl, inr,
}
use mathlib.Core.Option.{none-ne-some}
use red_brick_apid.ApiError.{
  ApiE, Errno, success, get_error_code_from_errno, get_error_code_from_errno-ne-success,
}
use red_brick_apid.Store.Arrays.{ArrayLib}
use red_brick_apid.Cron.{
  Entry, CronFile, Cron, CronAttempts, Added, answered, undefined, indeterminate, null, search,
  or_else, find_entry, entry_index, find_file, format_filename, put_file, undo, write_file,
  place_entry, add_entry, encode,
}
use red_brick_apid.Cron.Digits.{format_filename-injective, find_file-without_file}
use red_brick_apid.Cron.Lookup.{
  search-null, search-first, search-empty, find_entry-missing, find_entry-present, set_at-found,
  set_at-others, append-found, append-others, IsUnique, append-IsUnique, set_at-IsUnique,
  remove_last,
}

module _ (lib : ArrayLib Entry) (e : Entry) (identifier fields : List ℕ) (c : Cron) where
  -- The file that the call writes.
  abbrev pub new_file : CronFile
  new_file = record {
    identifier = identifier;
    fields = fields;
    bytes = encode c.cookie e.program_id;
  }

  -- The program has the entry and the file; the other programs keep theirs.
  pub record IsAdded (after : Cron) : Type 0 where
    pub entry : find_entry e.program_id after.entries ≡ some e
    pub other_entries :
        (q : ℕ) → q ≢ e.program_id → find_entry q after.entries ≡ find_entry q c.entries
    pub file : find_file (format_filename e.program_id) after.files ≡ some new_file
    pub other_files :
        (q : ℕ)
        → q < 65536
        → q ≢ e.program_id
        → find_file (format_filename q) after.files ≡ find_file (format_filename q) c.files
    pub same_cookie : after.cookie ≡ c.cookie
    pub unique : IsUnique c.entries → IsUnique after.entries

  -- No program gains or loses an entry, or its file.
  pub record IsKept (after : Cron) : Type 0 where
    pub kept_entries :
        (q : ℕ) → q ≢ e.program_id → find_entry q after.entries ≡ find_entry q c.entries
    pub kept_entry :
        (find_entry e.program_id after.entries ≡ none) ↔ (find_entry e.program_id c.entries ≡ none)
    pub kept_files : after.files ≡ c.files
    pub kept_cookie : after.cookie ≡ c.cookie
    pub kept_unique : IsUnique c.entries → IsUnique after.entries

  pub data AddOutcome : Added → Type 0 where
    done : (after : Cron) → IsAdded after → AddOutcome (answered success after)
    failed :
        (error : ApiE) (after : Cron)
        → error ≢ success
        → IsKept after
        → AddOutcome (answered error after)
    unset : c.entries ≡ [] → AddOutcome undefined

  -- The entry is in its place, and can be taken back.
  record IsPlaced (appended : Bool) (placed : Cron) : Type 0 where
    entry_there : find_entry e.program_id placed.entries ≡ some e
    others_there : (q : ℕ) → q ≢ e.program_id → find_entry q placed.entries ≡ find_entry q c.entries
    files_there : placed.files ≡ c.files
    cookie_there : placed.cookie ≡ c.cookie
    unique_there : IsUnique c.entries → IsUnique placed.entries
    undone : (n : ℕ) → IsKept (undo lib appended (record placed { temporary_files = n }))

  written_file :
      (q : ℕ) (files : List (List ℕ × CronFile))
      → e.program_id < 65536
      → q < 65536
      → q ≢ e.program_id
      → find_file (format_filename q) (put_file (format_filename e.program_id) new_file files)
        ≡ find_file (format_filename q) files
  written_file q files small small' ne =
      elim (Bool-cases (same_name (format_filename e.program_id) (format_filename q))) [
        | inl same ↦ absurd (ne (sym (format_filename-injective e.program_id q small small' same)))
        | inr differ ↦ rw differ (
            find_file-without_file (format_filename e.program_id) (format_filename q) files
              (same_name-sym (format_filename e.program_id) (format_filename q) differ))
      ]

  write_file-Outcome :
      (appended : Bool) (attempts : CronAttempts) (placed : Cron)
      → e.program_id < 65536
      → IsPlaced appended placed
      → AddOutcome (write_file lib e.program_id new_file appended attempts placed)
  unfolding write_file
  write_file-Outcome appended attempts placed small p = elim (Option-cases attempts.open_failure) [
    | inr (errno, h) ↦
        rw h (
          failed _ _ (get_error_code_from_errno-ne-success errno) (p.undone placed.temporary_files))
    | inl opened ↦
        elim (Option-cases (
          or_else attempts.chmod_failure
            (or_else attempts.write_failure attempts.rename_failure))) [
              | inr (errno, h) ↦
                  rw (opened, write_file, h)
                    (failed _ _ (get_error_code_from_errno-ne-success errno)
                      (p.undone (placed.temporary_files + 1)))
              | inl renamed ↦
                  rw (opened, write_file, renamed)
                    (done _ (record {
                      entry = p.entry_there;
                      other_entries = p.others_there;
                      file = rw (same_name_refl (format_filename e.program_id)) refl;
                      other_files = λ q lt ne.
                          written_file q placed.files small lt ne
                          ∙ ap (find_file (format_filename q)) p.files_there;
                      same_cookie = p.cookie_there;
                      unique = p.unique_there;
                    }))
            ]
  ]

  IsPlaced-new :
      entry_index e.program_id c.entries ≡ none
      → IsPlaced true (record c { entries = lib.append c.entries e })
  IsPlaced-new without =
      let missing = find_entry-missing e.program_id c.entries without in
      record {
        entry_there = rw (lib.append_lem c.entries e) (append-found e c.entries missing);
        others_there = λ q ne. rw (lib.append_lem c.entries e) (append-others e q c.entries ne);
        files_there = refl;
        cookie_there = refl;
        undone = λ n.
            let same : lib.remove (lib.append c.entries e) (length (lib.append c.entries e) - 1)
                ≡ c.entries =
              rw (lib.append_lem c.entries e, lib.remove_lem) (remove_last e c.entries) in
            record {
              kept_entries = λ q ne. ap (find_entry q) same;
              kept_entry = rw same ((λ h. h), λ h. h);
              kept_files = refl;
              kept_cookie = refl;
              kept_unique = λ u. rw same u;
            };
        unique_there = λ u. rw (lib.append_lem c.entries e) (append-IsUnique e c.entries without u);
      }

  IsPlaced-old :
      (i : ℕ)
      → entry_index e.program_id c.entries ≡ some i
      → IsPlaced false (record c { entries = set_at c.entries i e })
  IsPlaced-old i found =
      let (f, before) = find_entry-present e.program_id i c.entries found in
      let after = set_at-found e i c.entries found in
      record {
        entry_there = after;
        others_there = λ q ne. set_at-others e q i c.entries found ne;
        files_there = refl;
        cookie_there = refl;
        undone = λ n. record {
          kept_entries = λ q ne. set_at-others e q i c.entries found ne;
          kept_entry = (
            (λ h. absurd (none-ne-some e (sym h ∙ after))),
            λ h. absurd (none-ne-some f (sym h ∙ before)),
          );
          kept_files = refl;
          kept_cookie = refl;
          kept_unique = set_at-IsUnique e i c.entries found;
        };
        unique_there = set_at-IsUnique e i c.entries found;
      }

  place_entry-Outcome :
      (attempts : CronAttempts)
      → e.program_id < 65536
      → AddOutcome (place_entry lib (search e.program_id 0 c.entries null) e new_file attempts c)
  unfolding place_entry
  place_entry-Outcome attempts small = elim (Option-cases (entry_index e.program_id c.entries)) [
    | inl missing ↦
        rw (search-null e.program_id 0 c.entries, missing)
          (by_append attempts.append_failure missing)
    | inr (i, found) ↦
        let at : 0 + i ≡ i = omega arith in
        rw (search-null e.program_id 0 c.entries, found, at)
          (write_file-Outcome false attempts _ small (IsPlaced-old i found))
  ]
    where
      by_append :
          (failure : Option Errno)
          → entry_index e.program_id c.entries ≡ none
          → AddOutcome (elim failure [
            | some errno ↦ answered (get_error_code_from_errno errno) c
            | none ↦
                write_file lib e.program_id new_file true attempts
                  (record c { entries = lib.append c.entries e })
          ])
      by_append (some errno) missing =
          failed _ _ (get_error_code_from_errno-ne-success errno) (record {
            kept_entries = λ q ne. refl;
            kept_entry = ((λ h. h), λ h. h);
            kept_files = refl;
            kept_cookie = refl;
            kept_unique = λ u. u;
          })
      by_append none missing = write_file-Outcome true attempts _ small (IsPlaced-new missing)

  -- For a 16-bit program ID, `cron_add_entry` does one of three things: it answers success, and the
  -- program has the entry and the file while the other programs keep theirs; or it answers an
  -- error, and no program gains or loses an entry or a file; or there was no entry at all, and it
  -- reads a pointer that was not set. No program gets a second entry.
  pub add_entry-AddOutcome :
      (attempts : CronAttempts)
      → e.program_id < 65536
      → AddOutcome (add_entry lib e identifier fields attempts c)
  unfolding add_entry place_entry
  add_entry-AddOutcome attempts small =
      elim (Option-cases (or_else attempts.filename_failure attempts.content_failure)) [
        | inr (errno, h) ↦
            rw (h, add_entry)
              (failed _ _ (get_error_code_from_errno-ne-success errno) (record {
                kept_entries = λ q ne. refl;
                kept_entry = ((λ h. h), λ h. h);
                kept_files = refl;
                kept_cookie = refl;
                kept_unique = λ u. u;
              }))
        | inl formatted ↦ rw (formatted, add_entry) (placed c.entries refl)
      ]
    where
      placed :
          (entries : List Entry)
          → c.entries ≡ entries
          → AddOutcome (
              place_entry lib (search e.program_id 0 c.entries indeterminate) e new_file attempts c)
      placed [] h =
          let first : search e.program_id 0 c.entries indeterminate ≡ indeterminate =
            ap (λ es. search e.program_id 0 es indeterminate) h ∙ search-empty e.program_id in
          rw (first, place_entry) (unset h)
      placed (x ∷ entries) h =
          let first : search e.program_id 0 c.entries indeterminate
              ≡ search e.program_id 0 c.entries null =
            rw h (search-first e.program_id x entries) in
          rw first (place_entry-Outcome attempts small)

  -- The outcome of a call that answers success.
  pub add_entry-IsAdded :
      (attempts : CronAttempts) (after : Cron)
      → e.program_id < 65536
      → add_entry lib e identifier fields attempts c ≡ answered success after
      → IsAdded after
  add_entry-IsAdded attempts after small good =
      from (subst AddOutcome good (add_entry-AddOutcome attempts small)) refl
    where
      from : {r : Added} → AddOutcome r → r ≡ answered success after → IsAdded after
      from (done s d) h = let same : s ≡ after = cc in subst IsAdded same d
      from (failed error s ne d) h = let same : error ≡ success = cc in absurd (ne same)
      from (unset d) h = cc

  -- When no program has an entry and the file name and its content can be formatted,
  -- `cron_add_entry` reads a pointer that was not set.
  pub add_entry-undefined :
      (attempts : CronAttempts)
      → c.entries ≡ []
      → attempts.filename_failure ≡ none
      → attempts.content_failure ≡ none
      → add_entry lib e identifier fields attempts c ≡ undefined
  unfolding add_entry search place_entry
  add_entry-undefined attempts empty h h' = ground (arith, empty, h, h')
