-- ===== src/GoErrors.antt =====
-- Go's error values, as fcm/push.go and fcm/register.go make them and test them: errors of the
-- standard library, errors.New, fmt.Errorf with %w, httpStatusError and transientError.
use Prim.Native.String.{String}
use google_find_my_tools_go.Prelude.{ℕ, Bool, true, Option, none, some}

-- io.EOF, io.ErrUnexpectedEOF, context.Canceled, context.DeadlineExceeded; a value of a type that
-- implements net.Error, with what its Timeout method returns; errors.New (or fmt.Errorf with no
-- %w); fmt.Errorf with one %w; *httpStatusError with its status; transientError.
pub data GoError : Type 0 where
  eof unexpected_eof canceled deadline_exceeded : GoError
  net : Bool → GoError
  message : String → GoError
  wrapped : String → GoError → GoError
  http_status : ℕ → GoError
  transient : GoError → GoError

-- The type assertion `err.(net.Error)`: it looks at the value itself and not at what it wraps.
-- `some t` is a net.Error whose Timeout method returns `t`; context.DeadlineExceeded is one.
unfoldable pub as_net_error : GoError → Option Bool
as_net_error deadline_exceeded = some true
as_net_error (net timed_out) = some timed_out
as_net_error _ = none
