-- ===== src/Server/Authentication.antt =====
-- The results of an authenticator (src/server/auth/authenticator.rs), what `authenticate_connection` of
-- src/server/transports/server_core.rs makes of one, and what it reads of a frame.
use flare_core.Base.{
  Bool, true, false, ◌&&◌, [], Option, none, some, Text, text_eq, if◌then◌else◌, Result, ok, err,
  is_empty,
}
use flare_core.Base.Chars.{codes, trim}
use flare_core.Base.Dict.{Dict, get, insert}
use flare_core.Connection.Info.{tenant_id_metadata_key}
use flare_core.Errors.{FlareError, localized, authentication_failed}
use flare_core.Errors.Codes.{service_unavailable}
use flare_core.Kick.{from_utf8}
use flare_core.Negotiation.Connect.{Metadata, and_then}
use flare_core.Negotiation.Settle.{ConnectionIdentity}
use flare_core.Server.Frames.{Frame, system_command}

pub record AuthResult : Type 0 where
  pub authenticated : Bool
  pub user_id : Option Text
  pub error_message : Option Text
  pub user_metadata : Option (Dict Text Text)
  pub retryable : Bool

unfoldable pub success : Option Text → AuthResult
success user = record {
  authenticated = true;
  user_id = user;
  error_message = none;
  user_metadata = none;
  retryable = false;
}

unfoldable pub failure : Text → AuthResult
failure message = record {
  authenticated = false;
  user_id = none;
  error_message = some message;
  user_metadata = none;
  retryable = false;
}

unfoldable pub retryable_failure : Text → AuthResult
unfolding failure
retryable_failure message = record (failure message) { retryable = true }

abbrev or_no_metadata : Option (Dict Text Text) → Dict Text Text
or_no_metadata none = []
or_no_metadata (some m) = m

unfoldable pub with_tenant_id : AuthResult → Text → AuthResult
with_tenant_id r tenant = record r {
  user_metadata = some (insert tenant_id_metadata_key tenant (or_no_metadata r.user_metadata));
}

unfoldable pub tenant_id : AuthResult → Option Text
unfolding get
tenant_id r = and_then r.user_metadata (get tenant_id_metadata_key)

abbrev pub is_blank : Option Text → Bool
is_blank none = true
is_blank (some user) = is_empty (trim user)

abbrev or_text : Option Text → Text → Text
or_text none text = text
or_text (some given) text = given

-- What is made of an authenticator's verdict.
unfoldable pub identity_of : AuthResult → Result FlareError ConnectionIdentity
unfolding trim tenant_id
identity_of r =
    if r.authenticated && is_blank r.user_id
    then err (authentication_failed (codes "认证结果缺少用户"))
    else if r.authenticated
    then ok (record { user_id = r.user_id; tenant_id = tenant_id r; metadata = r.user_metadata })
    else if r.retryable
    then err (localized service_unavailable (or_text r.error_message (codes "认证暂不可用")))
    else err (authentication_failed (or_text r.error_message (codes "Token 验证失败")))

abbrev metadata_of : Frame → Option Metadata
metadata_of frame = elim (system_command frame) [ none ↦ none | some c ↦ some c.metadata ]

unfoldable pub extract_system_command_metadata : Frame → Option Metadata
unfolding system_command
extract_system_command_metadata frame = metadata_of frame

unfoldable pub extract_token_from_frame : Frame → Option Text
unfolding extract_system_command_metadata get from_utf8
extract_token_from_frame frame =
    and_then (extract_system_command_metadata frame)
      (λ metadata. and_then (get (codes "token") metadata) from_utf8)
