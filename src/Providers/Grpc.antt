-- ===== src/Providers/Grpc.antt =====
-- The foreign package `google.golang.org/grpc/codes`: the codes that the program names.
use cloud_secrets.Prelude.{Bool, true, false}

pub data Code : Type 0 where
  code_canceled code_deadline_exceeded code_invalid_argument code_already_exists : Code
  code_aborted code_not_found code_failed_precondition code_internal : Code
  -- any other
  code_unknown : Code

abbrev pub is_canceled : Code → Bool
is_canceled code_canceled = true
is_canceled _ = false

abbrev pub is_deadline_exceeded : Code → Bool
is_deadline_exceeded code_deadline_exceeded = true
is_deadline_exceeded _ = false

abbrev pub is_invalid_argument : Code → Bool
is_invalid_argument code_invalid_argument = true
is_invalid_argument _ = false

abbrev pub is_already_exists : Code → Bool
is_already_exists code_already_exists = true
is_already_exists _ = false

abbrev pub is_not_found_code : Code → Bool
is_not_found_code code_not_found = true
is_not_found_code _ = false
