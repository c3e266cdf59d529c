-- ===== src/Errors.antt =====
-- `FlareError`: src/common/error/flare_error.rs, without its details, parameters and time.
pub mod Codes
use flare_core.Base.{Option, none, some, Text, ◌++◌}
use flare_core.Base.Chars.{codes}
use Codes.{ErrorCode, as_str}

pub data FlareError : Type 0 where
  localized : ErrorCode → Text → FlareError
  system io : Text → FlareError

unfoldable pub code : FlareError → Option ErrorCode
code (localized c reason) = some c
code _ = none

unfoldable pub reason : FlareError → Text
reason (localized c text) = text
reason (system text) = text
reason (io text) = text

abbrev pub authentication_failed : Text → FlareError
authentication_failed reason = localized ErrorCode.authentication_failed reason

abbrev pub configuration_error : Text → FlareError
configuration_error reason = localized ErrorCode.configuration_error reason

abbrev pub connection_failed : Text → FlareError
connection_failed reason = localized ErrorCode.connection_failed reason

abbrev pub connection_closed : Text → FlareError
connection_closed reason = localized ErrorCode.connection_closed reason

abbrev pub connection_timeout : Text → FlareError
connection_timeout reason = localized ErrorCode.connection_timeout reason

abbrev pub general_error : Text → FlareError
general_error reason = localized ErrorCode.general_error reason

-- `Display`
unfoldable pub display : FlareError → Text
unfolding as_str
display (localized c text) = codes "错误 [" ++ (as_str c ++ (codes "] " ++ text))
display (system text) = codes "系统错误: " ++ text
display (io text) = codes "IO 错误: " ++ text
