-- ===== src/Tests/Files.antt =====
-- src/redapid/file.c at concrete inputs.
use red_brick_apid.Base.{
  Bool, ◌≤◌, ◌<◌, ℕ, true, false, List, [], ◌∷◌, arith, ltb, if◌then◌else◌, ◌≡◌, refl, length,
}
use red_brick_apid.FileObject.{
  FileObject, packet_success, packet_unknown_error, read_async, abort_async_read, handle_async_read,
  interrupted, send_async_read_callback, stop_async_read, length_to_read, deliver,
}
use red_brick_apid.FileObject.AsyncRead.{
  Source, run, delivered, Delivered, read_async-Delivered, read_async-stuck, Hangs, AllRefused,
  read_all,
}

-- Every read takes as much as there is.
abbrev all_there : ℕ → List ℕ → ℕ
all_there asked bytes = if ltb (length bytes) asked then length bytes else asked

there_asked : (asked : ℕ) (bytes : List ℕ) → all_there asked bytes ≤ asked
there_asked asked bytes = ground arith

there_length : (asked : ℕ) (bytes : List ℕ) → all_there asked bytes ≤ length bytes
there_length asked bytes = ground arith

there_positive :
    (asked : ℕ) (bytes : List ℕ) → 0 < asked → 0 < length bytes → 0 < all_there asked bytes
there_positive asked bytes some_asked some_there = ground arith

abbrev whole : Source
whole = record {
  amount = all_there;
  amount_asked = there_asked;
  amount_there = there_length;
  amount_positive = there_positive;
}

abbrev idle_file : FileObject
idle_file = record {
  external_reference_count = 1;
  async_read_in_progress = false;
  length_to_read_async = 0;
  has_source = false;
  callbacks = [];
}

abbrev content : List ℕ
content = 10 ∷ 20 ∷ 30 ∷ []

read_async-Delivered_example :
    ((read_async 2 true idle_file).0 ≡ packet_success)
    × Delivered whole 2 content idle_file (run whole 5 (read_async 2 true idle_file).1 content)
read_async-Delivered_example =
    read_async-Delivered whole 2 5 idle_file content (omega arith) refl (omega arith) (omega arith)

abbrev later_calls : List (ℕ × Bool)
later_calls = (3, true) ∷ (0, true) ∷ []

read_async-stuck_example :
    ((read_async 2 false idle_file).0 ≡ packet_unknown_error)
    × Hangs (read_async 2 false idle_file).1
    × AllRefused (read_all later_calls (read_async 2 false idle_file).1).0
    × Hangs (read_all later_calls (read_async 2 false idle_file).1).1
read_async-stuck_example = read_async-stuck 2 later_calls idle_file (omega arith) refl refl

-- What is delivered, run.
delivered-run :
    delivered (run whole 5 (read_async 2 true idle_file).1 content).callbacks ≡ 10 ∷ 20 ∷ []
unfolding run read_async handle_async_read deliver send_async_read_callback stop_async_read
    length_to_read
delivered-run = refl

-- An interrupted read goes on, and a read that was aborted is over.
aborted_run :
    (abort_async_read (handle_async_read interrupted (read_async 2 true idle_file).1)).has_source
    ≡ false
unfolding read_async handle_async_read abort_async_read send_async_read_callback stop_async_read
aborted_run = refl
