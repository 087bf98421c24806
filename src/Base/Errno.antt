-- ===== src/Base/Errno.antt =====
-- `Errno_t` (include/shared/libc/errno.h), one constructor for each code that the kernel names. `EINVAL`,
-- `ENOENT`, `ENOMEM` and the other POSIX spellings are aliases of these, and a function that returns the
-- negated alias is noted where it is modelled.
pub data Errno : Type 0 where
  success unknown invalid_argument not_supported permission_denied interrupted timed_out : Errno
  busy out_of_memory bad_address buffer_too_small page_fault page_already_mapped : Errno
  page_not_mapped frame_unavailable invalid_alignment heap_corrupted heap_exhausted : Errno
  protection_fault address_in_use address_not_mapped stack_overflow stack_underflow : Errno
  segmentation_fault double_free invalid_free not_found already_exists not_directory : Errno
  is_directory directory_not_empty read_only_fs no_space_left name_too_long : Errno
  bad_file_descriptor too_many_open_files end_of_file io_error device_not_found : Errno
  device_busy device_fault no_child_process process_not_found exec_format_error : Errno
  not_connected connection_refused connection_reset address_in_use_net panic internal : Errno
