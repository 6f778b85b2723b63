-- ===== src/Core/Status.antt =====
-- crates/dlep-core/src/status.rs. `StatusCode(u8)` is a number.
use dlep.Base.{ℕ, Bool, leb}

abbrev pub StatusCode : Type 0
StatusCode = ℕ

abbrev pub success : StatusCode
success = 0

abbrev pub not_interested : StatusCode
not_interested = 1

abbrev pub request_denied : StatusCode
request_denied = 2

abbrev pub inconsistent_data : StatusCode
inconsistent_data = 3

abbrev pub unknown_message : StatusCode
unknown_message = 128

abbrev pub unexpected_message : StatusCode
unexpected_message = 129

abbrev pub invalid_data : StatusCode
invalid_data = 130

abbrev pub invalid_destination : StatusCode
invalid_destination = 131

abbrev pub timed_out : StatusCode
timed_out = 132

abbrev pub shutting_down : StatusCode
shutting_down = 255

unfoldable pub terminates_session : StatusCode → Bool
terminates_session c = leb 128 c
