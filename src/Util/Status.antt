-- ===== src/Util/Status.antt =====
-- `utilStatus` (C/inc/util/Status.h), and the pair that a C function returns through its status
-- and its out parameter.

pub data Status : Type 0 where
  no_error : Status
  bad_cast : Status
  duplicate : Status
  illegal_state : Status
  not_found : Status
  null_argument : Status
  out_of_range : Status
  overflow : Status
  std_api_error : Status
  too_many : Status
  type_mismatch : Status
  underflow : Status

-- The `CHK` macro: what follows runs only if the status is `no_error`.
abbrev pub check {ℓ} : {A : Type ℓ} → Status → A → A → A
check no_error rest failed = rest
check _ rest failed = failed

-- How the library was compiled: with pools of fixed size, or over `malloc`.
pub data Build : Type 0 where
  static_allocation : Build
  dynamic_allocation : Build

-- What holds of both outcomes of `CHK` holds of what it answers.
pub check_either {ℓ κ} :
    {A : Type ℓ} (P : A → Type κ) (status : Status) {rest failed : A}
    → P rest
    → P failed
    → P (check status rest failed)
check_either P no_error h k = h
check_either P bad_cast h k = k
check_either P duplicate h k = k
check_either P illegal_state h k = k
check_either P not_found h k = k
check_either P null_argument h k = k
check_either P out_of_range h k = k
check_either P overflow h k = k
check_either P std_api_error h k = k
check_either P too_many h k = k
check_either P type_mismatch h k = k
check_either P underflow h k = k
