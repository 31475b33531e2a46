-- ===== src/FileObject.antt =====
-- src/redapid/file.c, the asynchronous reading of a file: a client asks for bytes, and the event
-- loop delivers them in callbacks of at most 60 bytes. Reading itself is a parameter, by its
-- result.
pub mod Bytes
pub mod AsyncRead
pub mod Open
pub mod Opens
use red_brick_apid.Base.{
  ℕ, zero, suc, ◌+◌, ◌-◌, ◌^◌, Bool, true, false, not, ◌&&◌, ◌||◌, List, [], ◌∷◌, ◌++◌, ltb, ◌==◌,
  if◌then◌else◌, length,
}
use red_brick_apid.ApiError.{
  ApiE, Errno, success, out_of_range, invalid_operation, internal_error, operation_aborted,
  get_error_code_from_errno,
}

-- An async-file-read callback.
pub record ReadCallback : Type 0 where
  pub error_code : ApiE
  pub buffer : List ℕ

-- The members of `File` that an asynchronous read uses. `has_source` says that the event loop polls
-- `async_read_eventfd`; `callbacks` are those that were sent, the latest first.
pub record FileObject : Type 0 where
  pub external_reference_count : ℕ
  pub async_read_in_progress : Bool
  pub length_to_read_async : ℕ
  pub has_source : Bool
  pub callbacks : List ReadCallback

-- What `file->read` does: errno says interrupted, would block or an error, or bytes are there.
pub data ReadResult : Type 0 where
  interrupted would_block : ReadResult
  read_failed : Errno → ReadResult
  has_read : List ℕ → ReadResult

pub data PacketE : Type 0 where
  packet_success packet_invalid_parameter packet_unknown_error : PacketE

abbrev pub max_read_async_buffer_length : ℕ
max_read_async_buffer_length = 60

-- INT64_MAX
abbrev pub int64_max : ℕ
int64_max = 9223372036854775807

-- `file_send_async_read_callback`
unfoldable pub send_async_read_callback : ApiE → List ℕ → FileObject → FileObject
send_async_read_callback error buffer f = record f {
  callbacks =
      if ltb 0 f.external_reference_count
      then record { error_code = error; buffer = buffer } ∷ f.callbacks
      else f.callbacks;
}

-- The number of bytes that `file_handle_async_read` asks for.
unfoldable pub length_to_read : FileObject → ℕ
length_to_read f =
    if ltb f.length_to_read_async max_read_async_buffer_length
    then f.length_to_read_async
    else max_read_async_buffer_length

-- The read is over.
unfoldable pub stop_async_read : FileObject → FileObject
stop_async_read f = record f {
  has_source = false;
  async_read_in_progress = false;
  length_to_read_async = 0;
}

-- The part of `file_handle_async_read` behind a read that was no error.
unfoldable pub deliver : List ℕ → FileObject → FileObject
deliver bytes f =
    let left = f.length_to_read_async - length bytes in
    send_async_read_callback success bytes (
      if length bytes == 0 || left == 0
      then stop_async_read f
      else record f { length_to_read_async = left })

-- `file_handle_async_read`
unfoldable pub handle_async_read : ReadResult → FileObject → FileObject
handle_async_read result f =
    if not f.async_read_in_progress then record f { has_source = false } else elim result [
      | interrupted ↦ f
      | would_block ↦ deliver [] f
      | has_read bytes ↦ deliver bytes f
      | read_failed errno ↦
          send_async_read_callback (get_error_code_from_errno errno) [] (stop_async_read f)
    ]

-- `file_read_async`; `added` is the success of `event_add_source`.
unfoldable pub read_async : ℕ → Bool → FileObject → PacketE × FileObject
read_async amount added f =
    if ltb int64_max amount
    then (packet_invalid_parameter, send_async_read_callback out_of_range [] f)
    else if f.async_read_in_progress
    then (packet_unknown_error, send_async_read_callback invalid_operation [] f)
    else if added
    then (
      packet_success,
      record f { async_read_in_progress = true; length_to_read_async = amount; has_source = true },
    )
    else (
      packet_unknown_error,
      send_async_read_callback internal_error []
          (record f { async_read_in_progress = true; length_to_read_async = amount }),
    )

-- `file_abort_async_read`
unfoldable pub abort_async_read : FileObject → FileObject
abort_async_read f =
    if f.async_read_in_progress
    then send_async_read_callback operation_aborted [] (stop_async_read f)
    else f
