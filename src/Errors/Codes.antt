-- ===== src/Errors/Codes.antt =====
-- `ErrorCode`: src/common/error/code.rs.
use flare_core.Base.{
  ℕ, ◌*◌, ◌+◌, ◌≡◌, refl, ◌↔◌, Bool, true, false, ◌&&◌, List, [], ◌∷◌, Option, none, some, arith,
  Text, leb, nat_beq, nat_beq_iff, if◌then◌else◌, text_eq, ◌==◌,
}
use flare_core.Base.Chars.{codes}

pub data ErrorCode : Type 0 where
  connection_failed connection_timeout connection_closed connection_refused : ErrorCode
  connection_limit_exceeded not_connected connection_reconnecting authentication_failed : ErrorCode
  authentication_expired authentication_invalid authentication_required permission_denied :
      ErrorCode
  token_invalid token_expired protocol_error protocol_version_mismatch : ErrorCode
  protocol_not_supported message_format_error message_too_large invalid_command : ErrorCode
  message_send_failed message_delivery_failed message_not_found message_expired : ErrorCode
  message_rate_limit_exceeded message_decode_failed user_not_found user_offline : ErrorCode
  user_blocked user_quota_exceeded user_session_limit_exceeded internal_error : ErrorCode
  service_unavailable resource_exhausted configuration_error database_error : ErrorCode
  network_error network_timeout network_unreachable network_connection_lost : ErrorCode
  serialization_error deserialization_error encoding_error general_error : ErrorCode
  invalid_parameter operation_not_supported operation_failed operation_timeout : ErrorCode
  unknown_error : ErrorCode

unfoldable pub as_u32 : ErrorCode → ℕ
as_u32 connection_failed = 1000
as_u32 connection_timeout = 1001
as_u32 connection_closed = 1002
as_u32 connection_refused = 1003
as_u32 connection_limit_exceeded = 1004
as_u32 not_connected = 1005
as_u32 connection_reconnecting = 1006
as_u32 authentication_failed = 2000
as_u32 authentication_expired = 2001
as_u32 authentication_invalid = 2002
as_u32 authentication_required = 2003
as_u32 permission_denied = 2004
as_u32 token_invalid = 2005
as_u32 token_expired = 2006
as_u32 protocol_error = 3000
as_u32 protocol_version_mismatch = 3001
as_u32 protocol_not_supported = 3002
as_u32 message_format_error = 3003
as_u32 message_too_large = 3004
as_u32 invalid_command = 3005
as_u32 message_send_failed = 4000
as_u32 message_delivery_failed = 4001
as_u32 message_not_found = 4002
as_u32 message_expired = 4003
as_u32 message_rate_limit_exceeded = 4004
as_u32 message_decode_failed = 4005
as_u32 user_not_found = 5000
as_u32 user_offline = 5001
as_u32 user_blocked = 5002
as_u32 user_quota_exceeded = 5003
as_u32 user_session_limit_exceeded = 5004
as_u32 internal_error = 6000
as_u32 service_unavailable = 6001
as_u32 resource_exhausted = 6002
as_u32 configuration_error = 6003
as_u32 database_error = 6004
as_u32 network_error = 7000
as_u32 network_timeout = 7001
as_u32 network_unreachable = 7002
as_u32 network_connection_lost = 7003
as_u32 serialization_error = 8000
as_u32 deserialization_error = 8001
as_u32 encoding_error = 8002
as_u32 general_error = 9000
as_u32 invalid_parameter = 9001
as_u32 operation_not_supported = 9002
as_u32 operation_failed = 9003
as_u32 operation_timeout = 9004
as_u32 unknown_error = 9999

-- The arms of `from_u32`.
abbrev arms : List (ℕ × ErrorCode)
arms =
    (1000, connection_failed)
    ∷ (1001, connection_timeout)
    ∷ (1002, connection_closed)
    ∷ (1003, connection_refused)
    ∷ (1004, connection_limit_exceeded)
    ∷ (1005, not_connected)
    ∷ (1006, connection_reconnecting)
    ∷ (2000, authentication_failed)
    ∷ (2001, authentication_expired)
    ∷ (2002, authentication_invalid)
    ∷ (2003, authentication_required)
    ∷ (2004, permission_denied)
    ∷ (2005, token_invalid)
    ∷ (2006, token_expired)
    ∷ (3000, protocol_error)
    ∷ (3001, protocol_version_mismatch)
    ∷ (3002, protocol_not_supported)
    ∷ (3003, message_format_error)
    ∷ (3004, message_too_large)
    ∷ (3005, invalid_command)
    ∷ (4000, message_send_failed)
    ∷ (4001, message_delivery_failed)
    ∷ (4002, message_not_found)
    ∷ (4003, message_expired)
    ∷ (4004, message_rate_limit_exceeded)
    ∷ (4005, message_decode_failed)
    ∷ (5000, user_not_found)
    ∷ (5001, user_offline)
    ∷ (5002, user_blocked)
    ∷ (5003, user_quota_exceeded)
    ∷ (5004, user_session_limit_exceeded)
    ∷ (6000, internal_error)
    ∷ (6001, service_unavailable)
    ∷ (6002, resource_exhausted)
    ∷ (6003, configuration_error)
    ∷ (6004, database_error)
    ∷ (7000, network_error)
    ∷ (7001, network_timeout)
    ∷ (7002, network_unreachable)
    ∷ (7003, network_connection_lost)
    ∷ (8000, serialization_error)
    ∷ (8001, deserialization_error)
    ∷ (8002, encoding_error)
    ∷ (9000, general_error)
    ∷ (9001, invalid_parameter)
    ∷ (9002, operation_not_supported)
    ∷ (9003, operation_failed)
    ∷ (9004, operation_timeout)
    ∷ (9999, unknown_error)
    ∷ []

abbrev arm_of : ℕ → List (ℕ × ErrorCode) → Option ErrorCode
arm_of n [] = none
arm_of n ((k, c) ∷ rest) = let later = arm_of n rest in if nat_beq n k then some c else later

unfoldable pub from_u32 : ℕ → Option ErrorCode
from_u32 n = arm_of n arms

unfoldable pub as_str : ErrorCode → Text
as_str connection_failed = codes "CONNECTION_FAILED"
as_str connection_timeout = codes "CONNECTION_TIMEOUT"
as_str connection_closed = codes "CONNECTION_CLOSED"
as_str connection_refused = codes "CONNECTION_REFUSED"
as_str connection_limit_exceeded = codes "CONNECTION_LIMIT_EXCEEDED"
as_str not_connected = codes "NOT_CONNECTED"
as_str connection_reconnecting = codes "CONNECTION_RECONNECTING"
as_str authentication_failed = codes "AUTHENTICATION_FAILED"
as_str authentication_expired = codes "AUTHENTICATION_EXPIRED"
as_str authentication_invalid = codes "AUTHENTICATION_INVALID"
as_str authentication_required = codes "AUTHENTICATION_REQUIRED"
as_str permission_denied = codes "PERMISSION_DENIED"
as_str token_invalid = codes "TOKEN_INVALID"
as_str token_expired = codes "TOKEN_EXPIRED"
as_str protocol_error = codes "PROTOCOL_ERROR"
as_str protocol_version_mismatch = codes "PROTOCOL_VERSION_MISMATCH"
as_str protocol_not_supported = codes "PROTOCOL_NOT_SUPPORTED"
as_str message_format_error = codes "MESSAGE_FORMAT_ERROR"
as_str message_too_large = codes "MESSAGE_TOO_LARGE"
as_str invalid_command = codes "INVALID_COMMAND"
as_str message_send_failed = codes "MESSAGE_SEND_FAILED"
as_str message_delivery_failed = codes "MESSAGE_DELIVERY_FAILED"
as_str message_not_found = codes "MESSAGE_NOT_FOUND"
as_str message_expired = codes "MESSAGE_EXPIRED"
as_str message_rate_limit_exceeded = codes "MESSAGE_RATE_LIMIT_EXCEEDED"
as_str message_decode_failed = codes "MESSAGE_DECODE_FAILED"
as_str user_not_found = codes "USER_NOT_FOUND"
as_str user_offline = codes "USER_OFFLINE"
as_str user_blocked = codes "USER_BLOCKED"
as_str user_quota_exceeded = codes "USER_QUOTA_EXCEEDED"
as_str user_session_limit_exceeded = codes "USER_SESSION_LIMIT_EXCEEDED"
as_str internal_error = codes "INTERNAL_ERROR"
as_str service_unavailable = codes "SERVICE_UNAVAILABLE"
as_str resource_exhausted = codes "RESOURCE_EXHAUSTED"
as_str configuration_error = codes "CONFIGURATION_ERROR"
as_str database_error = codes "DATABASE_ERROR"
as_str network_error = codes "NETWORK_ERROR"
as_str network_timeout = codes "NETWORK_TIMEOUT"
as_str network_unreachable = codes "NETWORK_UNREACHABLE"
as_str network_connection_lost = codes "NETWORK_CONNECTION_LOST"
as_str serialization_error = codes "SERIALIZATION_ERROR"
as_str deserialization_error = codes "DESERIALIZATION_ERROR"
as_str encoding_error = codes "ENCODING_ERROR"
as_str general_error = codes "GENERAL_ERROR"
as_str invalid_parameter = codes "INVALID_PARAMETER"
as_str operation_not_supported = codes "OPERATION_NOT_SUPPORTED"
as_str operation_failed = codes "OPERATION_FAILED"
as_str operation_timeout = codes "OPERATION_TIMEOUT"
as_str unknown_error = codes "UNKNOWN_ERROR"

abbrev named : Text → List (ℕ × ErrorCode) → Option ErrorCode
named value [] = none
named value ((k, c) ∷ rest) =
    let later = named value rest in if as_str c == value then some c else later

-- What serde reads as an error code: its name, as `as_str` writes it.
unfoldable pub parse_error_code : Text → Option ErrorCode
unfolding as_str
parse_error_code value = named value arms

pub data ErrorCategory : Type 0 where
  connection authentication protocol message user system network serialization general :
      ErrorCategory

abbrev within : ℕ → ℕ → Bool
within n thousands = leb (thousands * 1000) n && leb n (thousands * 1000 + 999)

unfoldable pub category : ErrorCode → ErrorCategory
unfolding as_u32
category c =
    let n = as_u32 c in
    if within n 1
    then connection
    else if within n 2
    then authentication
    else if within n 3
    then protocol
    else if within n 4
    then message
    else if within n 5
    then user
    else if within n 6
    then system
    else if within n 7
    then network
    else if within n 8
    then serialization
    else general

unfoldable pub is_retryable : ErrorCode → Bool
is_retryable connection_timeout = true
is_retryable connection_closed = true
is_retryable network_timeout = true
is_retryable network_connection_lost = true
is_retryable service_unavailable = true
is_retryable resource_exhausted = true
is_retryable _ = false

from_u32-as_u32 : (c : ErrorCode) → from_u32 (as_u32 c) ≡ some c
unfolding from_u32 as_u32
from_u32-as_u32 connection_failed = refl
from_u32-as_u32 _ = refl

-- Every arm gives the code of its number.
abbrev AreSound : List (ℕ × ErrorCode) → Type 0
AreSound [] = Unit {0}
AreSound ((k, c) ∷ rest) = (as_u32 c ≡ k) × AreSound rest

arm_of-AreSound :
    (n : ℕ) (c : ErrorCode) (rest : List (ℕ × ErrorCode))
    → AreSound rest
    → arm_of n rest ≡ some c
    → as_u32 c ≡ n
arm_of-AreSound n c [] v h = absurd (ground arith)
arm_of-AreSound n c ((k, d) ∷ rest) v h =
    ground (arith, nat_beq_iff n k, arm_of-AreSound n c rest v.1, v.0)

arms-AreSound : AreSound arms
unfolding as_u32
arms-AreSound = omega arith

-- A number is read as an error code exactly if it is the number of that code.
pub from_u32_iff : (n : ℕ) (c : ErrorCode) → (from_u32 n ≡ some c) ↔ (as_u32 c ≡ n)
unfolding from_u32
from_u32_iff n c = (arm_of-AreSound n c arms arms-AreSound, λ e. rw (← e) (from_u32-as_u32 c))
