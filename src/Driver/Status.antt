-- ===== src/Driver/Status.antt =====
-- The NTSTATUS values that windows/driver returns.
use smartmic_windows.Prelude.{ℕ, Bool, true, false}

-- `other` stands for what the kernel's and PortCls's own calls return when they fail.
pub data Status : Type 0 where
  success device_not_ready device_busy insufficient_resources access_denied unsuccessful : Status
  not_found not_supported not_implemented invalid_parameter device_already_attached : Status
  buffer_overflow buffer_too_small : Status
  other : ℕ → Status

-- `NT_SUCCESS`
abbrev pub nt_success : Status → Bool
nt_success success = true
nt_success _ = false
