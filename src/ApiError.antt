-- ===== src/ApiError.antt =====
-- src/redapid/api_error.h and src/redapid/api_error.c: the error codes and their origin in errno.
use red_brick_apid.Base.{◌≡◌, ◌≢◌, arith, Bool, true, false}

-- The errno values that the code tells apart; `other` is any other value.
pub data Errno : Type 0 where
  einval enomem enospc eacces eexist enoent eintr eisdir enotdir : Errno
  ewouldblock eoverflow ebadf erange enametoolong espipe enotsup emfile other : Errno

pub data ApiE : Type 0 where
  success unknown_error invalid_operation operation_aborted internal_error : ApiE
  unknown_session_id no_free_session_id unknown_object_id no_free_object_id : ApiE
  object_is_locked no_more_data wrong_list_item_type program_is_purged : ApiE
  invalid_parameter no_free_memory no_free_space access_denied already_exists : ApiE
  does_not_exist interrupted is_directory not_a_directory would_block overflow : ApiE
  bad_file_descriptor out_of_range name_too_long invalid_seek not_supported : ApiE
  too_many_open_files : ApiE

-- The test `error_code == API_E_SUCCESS`.
abbrev pub is_success : ApiE → Bool
is_success success = true
is_success _ = false

pub is_success-eq : (e : ApiE) → is_success e ≡ true → e ≡ success
is_success-eq e h = ground arith

unfoldable pub get_error_code_from_errno : Errno → ApiE
get_error_code_from_errno Errno.einval = invalid_parameter
get_error_code_from_errno Errno.enomem = no_free_memory
get_error_code_from_errno Errno.enospc = no_free_space
get_error_code_from_errno Errno.eacces = access_denied
get_error_code_from_errno Errno.eexist = already_exists
get_error_code_from_errno Errno.enoent = does_not_exist
get_error_code_from_errno Errno.eintr = interrupted
get_error_code_from_errno Errno.eisdir = is_directory
get_error_code_from_errno Errno.enotdir = not_a_directory
get_error_code_from_errno Errno.ewouldblock = would_block
get_error_code_from_errno Errno.eoverflow = overflow
get_error_code_from_errno Errno.ebadf = bad_file_descriptor
get_error_code_from_errno Errno.erange = out_of_range
get_error_code_from_errno Errno.enametoolong = name_too_long
get_error_code_from_errno Errno.espipe = invalid_seek
get_error_code_from_errno Errno.enotsup = not_supported
get_error_code_from_errno Errno.emfile = too_many_open_files
get_error_code_from_errno Errno.other = unknown_error

-- No errno value is mapped to the success code.
pub get_error_code_from_errno-ne-success : (e : Errno) → get_error_code_from_errno e ≢ success
unfolding get_error_code_from_errno
get_error_code_from_errno-ne-success e = ground arith

pub get_error_code_from_errno-fails : (e : Errno) → is_success (get_error_code_from_errno e) ≡ false
unfolding get_error_code_from_errno
get_error_code_from_errno-fails e = ground arith
