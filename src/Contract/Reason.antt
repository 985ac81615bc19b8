-- ===== src/Contract/Reason.antt =====
-- internal/contract/request.go: why a request is refused. The zero value, no reason, is not among
-- the constructors: what the code returns with it is a result of the model.
pub data ErrorClass : Type 0 where
  invalid_request request_too_large body_read_failure : ErrorClass

pub data Reason : Type 0 where
  body_bytes_limit read_failure invalid_utf8 invalid_unicode_escape : Reason
  malformed_json trailing_json duplicate_key nesting_limit : Reason
  root_not_object unknown_field missing_field wrong_type unsupported_value : Reason
  message_count_limit message_bytes_limit completion_limit : Reason
  reservation_overflow reservation_limit : Reason
