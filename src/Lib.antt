-- ===== src/Lib.antt =====
-- The RED Brick API daemon (redapid): the object system behind its API, the objects that live in
-- memory, the processes that it spawns, and the schedulers that start and stop them.
--
-- The program. Clients talk to the daemon in packets. Each API call names a session and objects by
-- 16-bit IDs. Objects are strings, lists, files, directories, processes and programs. An object
-- lives as long as something refers to it: the daemon itself by internal references, most of them
-- with a lock that makes strings and lists read-only, or clients by external references, each owned
-- by a session. Sessions expire, and give back what they own. An object that loses its last
-- reference leaves the inventory and is destroyed, and its destroy function gives back the objects
-- that it holds, which can be destroyed in turn.
--
-- The files and the code. Every path is from the repository's root.
--   ApiError: src/redapid/api_error.h and src/redapid/api_error.c, the error codes (APIE is `ApiE`)
--     and `api_get_error_code_from_errno`.
--   Memory: the memory blocks and the standard C functions that src/redapid/string.c uses.
--   Types: the structs of src/redapid/object.h and src/redapid/string.h.
--   Store: the state that the parts share. An address stands for a pointer: `object`, `session` and
--     `text` are the cells at the addresses, `objects`, `sessions` and `stock_strings` the arrays
--     of src/redapid/inventory.c, `references` the external references, `holds` what an object
--     gives back when it is destroyed (for a list, its items in order). Store/Arrays has
--     daemonlib's arrays.
--   StringObject: src/redapid/string.c on one string: `string_reserve` is `reserve`,
--     `string_set_chunk` is `set_chunk`, and so on. Its child Creation has `string_create` and its
--     callers on the store; Chunk, SetChunk, GetChunk, Creation/Text and Creation/Calls have the
--     proofs.
--   Inventory: src/redapid/inventory.c: the ID loops (`next_free_id`), `inventory_add_object`,
--     `inventory_add_session` and the lookups; the proofs are in Ids, Add, Lookup and Unique.
--   Object: src/redapid/object.c, with `inventory_remove_object`: the counts, the locks and the
--     cascade of destructions. Object/Create is `object_create`, Object/Undo about a reference
--     taken back. Object/Invariant says what the counts mean (`Inv`); Removal, Cascade, References,
--     Client, Frame and the children of Create have the proofs.
--   Session: src/redapid/session.c, with `inventory_remove_session`; the proofs are in
--     Session/Expire and Session/Begin.
--   ListObject: src/redapid/list.c; the proofs are in ListObject/Items and ListObject/Append.
--   Stock: `inventory_get_stock_string` of src/redapid/inventory.c; the proofs are in Stock/Get.
--   Listing: `inventory_get_processes` and `inventory_get_programs` of src/redapid/inventory.c; the
--     proofs are in Listing/Fresh and Listing/Allocated (the new list), Listing/Items (what is
--     appended), Listing/Loop and Listing/Counts.
--   Cron: src/redapid/cron.c: `cron_add_entry`, `cron_remove_entry` and `cron_handle_notification`.
--     The files of /etc/cron.d are a list by names; a file is its variable parts. Cron/Digits is
--     about the names, Cron/Lookup and Cron/Entries about the entries, Cron/Notify about the
--     notifications.
--   Socat: src/redapid/socat.c, the receiving of a notification, with the part of the event loop
--     that calls it.
--   Acquire: the getters that the parts share: looking up an object by its ID and taking a
--     reference and a lock on it (Getters), what a cleanup gives back (Cleanup), and what holds
--     what (Owner).
--   Process: src/redapid/process.c: the states and `process_wait`, `process_kill`,
--     `process_destroy` and the changes of state. Process/Spawn is `process_spawn` up to the new
--     object, Process/Child the child process between `fork` and `exec`, Process/Stdio the two
--     getters that add references. Changes, Spawning, Steps and Stdio/Atomic have the proofs.
--   Scheduler: src/redapid/program_scheduler.c: the state and how a scheduler stops. Filesystem is
--     `program_scheduler_prepare_filesystem`, Files opens the three files of a process, Launch is
--     `program_scheduler_spawn_process`, Events has the calls and callbacks, Life the creation and
--     Destruction the end. Holds says what a scheduler holds and when its state is sound. The
--     proofs are in Stopping, TimerStops, Errors and ShutDown (how it stops), Opened, Logs,
--     Redirected and Launching (files and processes), Named, Stored and Prepared (the names),
--     Running, Callbacks, Tries and Step (the events), Kept and Notified (the function that a
--     scheduler gives to `process_spawn`).
--   Monitor: src/redapid/process_monitor.c: `process_monitor_add_observer`,
--     `process_monitor_remove_observer` and `process_monitor_update_observation`; Search is
--     `process_monitor_search_proc`. Shape, Inform, Ticks, Add and Timed have the proofs.
--   FileObject: src/redapid/file.c, the asynchronous reading: `file_read_async`,
--     `file_handle_async_read` and `file_abort_async_read`, with the proofs in
--     FileObject/AsyncRead; Open is `file_open` and `pipe_create_` as calls on the inventory, and
--     Opens says what they hold.
--   Tests: runs of the definitions, and the theorems at concrete inputs.
--
-- "The counts are right" is `Inv s pending`: for each object of the inventory, its internal
-- reference count is the number of holds on it, of the objects in the inventory, of the inventory
-- itself on its stock strings, and of the `pending` holds (of callers, and of objects that are being
-- destroyed), and its lock count is the number of those of them that lock, so that a release that
-- is left out is seen as well as one too many; its external reference count is the sum over the
-- external references to it; the same sum holds for sessions; what is held or referenced is in the
-- array of its type; nothing is in an array twice. The model's counts are ℕ: where the code
-- subtracts from a count, this is the reason that it has enough to subtract from.
--
-- What is a parameter. daemonlib is not part of the repository: its arrays are `ArrayLib`, with the
-- laws that append adds at the end and that remove takes out one place, and `GROW_ALLOCATION` is
-- `Growth`, which never asks for less and keeps 2 ^ 31 as a bound. The results of `malloc`,
-- `realloc`, `calloc`, `array_append` and the timers are arguments (`Allocation`, `Attempts`,
-- `StringAttempts`, `SessionAttempts`, `ListAttempts`, `StockAttempts`, `CronAttempts`,
-- `SpawnAttempts`, `ChildAttempts`, `CreateAnswers`), and so is what the timer, cron, the process
-- monitor, brickd and the file system answer to a scheduler (`Answers`). The functions of observers
-- (src/redapid/process_monitor.c) may do nothing to the monitor but remove an observer, as
-- `program_scheduler_handle_observer` does. The destroy function of an object is called when the
-- object has left the array of its type, which is how daemonlib's `array_remove` is taken to do it;
-- the destruction of a program object is what it gives back (src/redapid/program.c), without the
-- message that a scheduler makes when its timer cannot be stopped. A scheduler gets the parts that
-- make objects as `Services`; Scheduler/Implementation fills them with the models of
-- src/redapid/string.c, src/redapid/file.c and src/redapid/process.c. The system calls of src/redapid/file.c are
-- `OpenAttempts` and `PipeAttempts`.
--
-- Undefined behaviour is a value: `undefined` or `none` where a byte outside a block would be read
-- or written, or a pointer that was not set is read. Fuel and bounds: `release` has fuel for one
-- more than the number of objects, as each nested call has one object less to destroy; the loop of
-- `session_remove_external_references` has one more than the number of references; the ID loops
-- have the 65535 rounds of the code, and the loop over the names of an individual log its 1000. A
-- read that waits for ever, for a child process that ends without having written its status, is
-- `none`. String lengths wrap at 2 ^ 32, IDs and `list_get_length` at 2 ^ 16, as their C types do.
--
-- What differs. Logging is left out. A cell that was freed keeps its last value, which nothing
-- reads. `array_remove` is assumed to take the item out before its destroy function runs; nothing is
-- shown for the other order, in which a nested destruction could move the items of the same array.
-- The two intrusive lists of external references are one list with an order.
--
-- Not modelled: the packets and their dispatch (src/redapid/api.c, src/redapid/network.c,
-- src/redapid/brickd.c), the directory and program objects, the file objects but for their
-- opening and asynchronous reading, and the configuration of a program, which end in system calls,
-- and the start of the daemon (src/redapid/main.c).
pub mod Base
pub mod ApiError
pub mod Memory
pub mod Types
pub mod StringObject
pub mod Store
pub mod Inventory
pub mod Object
pub mod Session
pub mod ListObject
pub mod Acquire
pub mod Cron
pub mod FileObject
pub mod Listing
pub mod Monitor
pub mod Process
pub mod Scheduler
pub mod Socat
pub mod Stock
pub mod Tests
