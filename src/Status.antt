-- ===== src/Status.antt =====
-- fsw/inc/cfe_psp_error.h: the status codes of the PSP functions, `int32` numbers.
use fs_nasa_cfs_psp.Base.{ℕ}

-- An `int32`, as an integer: `negsuc n` is -(n + 1).
pub data ℤ : Type 0 where
  pos : ℕ → ℤ
  negsuc : ℕ → ℤ

pub data Status : Type 0 where
  success error invalid_pointer error_address_misaligned error_timeout invalid_int_num : Status
  invalid_mem_addr invalid_mem_type invalid_mem_range invalid_mem_wordsize : Status
  invalid_mem_size invalid_mem_attr error_not_implemented : Status
  invalid_module_name invalid_module_id no_exception_data : Status

pub Status-discrete : Discrete Status
Status-discrete = hlevel

unfoldable pub code : Status → ℤ
code success = pos 0
code error = negsuc 0
code invalid_pointer = negsuc 1
code error_address_misaligned = negsuc 2
code error_timeout = negsuc 3
code invalid_int_num = negsuc 4
code invalid_mem_addr = negsuc 20
code invalid_mem_type = negsuc 21
code invalid_mem_range = negsuc 22
code invalid_mem_wordsize = negsuc 23
code invalid_mem_size = negsuc 24
code invalid_mem_attr = negsuc 25
code error_not_implemented = negsuc 26
code invalid_module_name = negsuc 27
code invalid_module_id = negsuc 28
code no_exception_data = negsuc 29
