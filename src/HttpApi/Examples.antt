-- ===== src/HttpApi/Examples.antt =====
-- A small HTTP policy (internal/httpapi/config.go) with one tenant, and the theorems on it.
use ssemaphore.Prelude.{ℕ, ◌≡◌, refl, true, none, some, List, [], ◌∷◌, ◌==◌, if◌then◌else◌}
use ssemaphore.Prelude.Result
use ssemaphore.Prelude.Result.{Result, ok, err}
use ssemaphore.Admission.Types.{pos, QueueLimits}
use ssemaphore.Admission.Config.{lookup, is_some}
use ssemaphore.HttpApi.Limits.{
  new_response_validator, validate_sse_limits, multiply, exceeds, validate_pre_dispatch_envelope,
  bearer_token_character, token_loop, valid_bearer_token,
}
use ssemaphore.HttpApi.Config.{
  HttpConfig, ParserPolicy, SchedulerPolicy, TenantPreDispatchLimit, ValidatedHandler, check_queue,
  check_limit, check_limits, has_digest, has_tenant, check_credentials, check_covered,
  check_timeouts, check_bounds, validate_handler,
}
use ssemaphore.HttpApi.PreDispatch.{
  Slots, Lease, fresh, move_lease, idle, arrive, step, Balanced, Reach-Balanced,
}
use ssemaphore.HttpApi.Envelopes.{
  Enveloped, Reserved, validate_handler-Reserved, validate_handler-Enveloped,
}

abbrev queue : QueueLimits
queue = record { count = 4; bytes = 400; work = 40 }

abbrev parser : ParserPolicy
parser = record { max_body_bytes = 100; max_request_units = 10 }

abbrev scheduler : SchedulerPolicy
scheduler = record {
  max_body_bytes = 100;
  max_request_units = 10;
  global_queue = queue;
  tenant_queue = λ t. if t == 7 then some queue else none;
}

abbrev limit : TenantPreDispatchLimit
limit = record { tenant = 7; count = 3 }

-- The token is `ab`.
abbrev http : HttpConfig
http = record {
  default_queue_timeout = pos 1000;
  body_read_timeout = pos 1000;
  upstream_timeout = pos 1000;
  stream_read_timeout = pos 1000;
  stream_event_timeout = pos 1000;
  max_response_body_bytes = 1000;
  max_stream_event_bytes = 100;
  max_stream_events = 10;
  global_pre_dispatch_limit = 4;
  tenant_pre_dispatch = limit ∷ [];
  credentials = record { tenant = 7; token = 97 ∷ 98 ∷ [] } ∷ [];
}

abbrev handler : ValidatedHandler
handler = record {
  default_queue_timeout = pos 1000;
  body_read_timeout = pos 1000;
  upstream_timeout = pos 1000;
  stream_read_timeout = pos 1000;
  stream_event_timeout = pos 1000;
  max_body_bytes = 1000;
  sse_limits = record { max_total_bytes = 1000; max_event_bytes = 100; max_events = 10 };
  global_slots = 4;
  tenant_slots = (7, 3) ∷ [];
  credentials = record { tenant = 7; digest = 97 } ∷ [];
}

-- A digest that is the token's first byte.
abbrev first_byte : List ℕ → ℕ
first_byte [] = 0
first_byte (b ∷ bs) = b

http-accepted : validate_handler first_byte http parser scheduler ≡ ok handler
unfolding validate_handler check_timeouts check_bounds check_limits check_limit check_queue
    check_credentials check_covered has_digest has_tenant lookup is_some new_response_validator
    validate_sse_limits multiply exceeds validate_pre_dispatch_envelope bearer_token_character
    token_loop valid_bearer_token Result.unless
http-accepted = refl

validate_handler-Reserved_example :
    Reserved parser scheduler 4 limit × (has_tenant 7 handler.credentials ≡ true)
validate_handler-Reserved_example =
    validate_handler-Reserved first_byte http parser scheduler handler 0 limit http-accepted refl

validate_handler-Enveloped_example : Enveloped 4 queue parser
validate_handler-Enveloped_example =
    validate_handler-Enveloped first_byte http parser scheduler handler http-accepted

-- Two requests of a tenant whose channel has one place: the second is refused.
abbrev caps : Slots
caps = record { tenant = λ t. 1; global = 1 }

abbrev empty : Slots
empty = record { tenant = λ t. 0; global = 0 }

abbrev one : Slots × Lease
one = move_lease caps (fresh 7) empty

abbrev two : Slots × Lease
two = move_lease caps (fresh 7) one.0

Reach-Balanced_example : Balanced caps two.0 (two.1 ∷ one.1 ∷ [])
Reach-Balanced_example = Reach-Balanced caps two.0 (two.1 ∷ one.1 ∷ []) (
    step one.0 [] (fresh 7) (one.1 ∷ [])
      (arrive one.0 (one.1 ∷ []) 7 (step empty [] (fresh 7) [] (arrive empty [] 7 idle))))
