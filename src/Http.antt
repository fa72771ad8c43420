-- ===== src/Http.antt =====
-- What a request handler throws: utils/error (exceptions and their statusCode), with the status
-- codes of the auth, user, role, permission, setting and request constants.
use openapi_nestjs_auth_mong.Prelude.{ℕ, String}

-- The NestJS exception classes that the source throws.
pub data HttpStatus : Type 0 where
  bad_request unauthorized forbidden not_found internal_server_error service_unavailable
        unprocessable_entity unsupported_media_type payload_too_large request_timeout :
      HttpStatus

-- What the login and the sign-up answer.
pub record Tokens : Type 0 where
  pub access_token : String
  pub refresh_token : String

pub data Exception : Type 0 where
  -- an HttpException with its body's statusCode and message
  http : HttpStatus → ℕ → String → Exception
  -- SuccessException: a 2xx answer that carries data beside a statusCode
  success : ℕ → String → Tokens → Exception
  -- any other Error: a rejected query, or a property read on null
  failure : Exception

-- ENUM_STATUS_CODE_ERROR.REQUEST_TIMEOUT
abbrev pub request_timeout_error : ℕ
request_timeout_error = 5992

-- ENUM_AUTH_STATUS_CODE_ERROR
abbrev pub auth_guard_basic_token_needed_error : ℕ
auth_guard_basic_token_needed_error = 5100

abbrev pub auth_guard_basic_token_invalid_error : ℕ
auth_guard_basic_token_invalid_error = 5101

abbrev pub auth_guard_jwt_access_token_error : ℕ
auth_guard_jwt_access_token_error = 5102

abbrev pub auth_guard_jwt_refresh_token_error : ℕ
auth_guard_jwt_refresh_token_error = 5103

abbrev pub auth_guard_inactive_error : ℕ
auth_guard_inactive_error = 5104

abbrev pub auth_guard_role_inactive_error : ℕ
auth_guard_role_inactive_error = 5105

abbrev pub auth_guard_admin_error : ℕ
auth_guard_admin_error = 5106

abbrev pub auth_guard_password_expired_error : ℕ
auth_guard_password_expired_error = 5107

abbrev pub auth_password_not_match_error : ℕ
auth_password_not_match_error = 5108

abbrev pub auth_password_new_must_difference_error : ℕ
auth_password_new_must_difference_error = 5109

abbrev pub auth_password_expired_error : ℕ
auth_password_expired_error = 5110

abbrev pub auth_guard_api_key_needed_error : ℕ
auth_guard_api_key_needed_error = 5121

abbrev pub auth_guard_api_key_prefix_invalid_error : ℕ
auth_guard_api_key_prefix_invalid_error = 5122

abbrev pub auth_guard_api_key_schema_invalid_error : ℕ
auth_guard_api_key_schema_invalid_error = 5123

abbrev pub auth_guard_api_key_timestamp_not_match_with_request_error : ℕ
auth_guard_api_key_timestamp_not_match_with_request_error = 5124

abbrev pub auth_guard_api_key_not_found_error : ℕ
auth_guard_api_key_not_found_error = 5125

abbrev pub auth_guard_api_key_inactive_error : ℕ
auth_guard_api_key_inactive_error = 5126

abbrev pub auth_guard_api_key_invalid_error : ℕ
auth_guard_api_key_invalid_error = 5127

-- ENUM_PERMISSION_STATUS_CODE_ERROR
abbrev pub permission_not_found_error : ℕ
permission_not_found_error = 5200

abbrev pub permission_guard_invalid_error : ℕ
permission_guard_invalid_error = 5201

abbrev pub permission_active_error : ℕ
permission_active_error = 5203

-- ENUM_USER_STATUS_CODE_ERROR
abbrev pub user_not_found_error : ℕ
user_not_found_error = 5400

abbrev pub user_exists_error : ℕ
user_exists_error = 5401

abbrev pub user_is_inactive_error : ℕ
user_is_inactive_error = 5402

abbrev pub user_email_exist_error : ℕ
user_email_exist_error = 5403

abbrev pub user_mobile_number_exist_error : ℕ
user_mobile_number_exist_error = 5404

abbrev pub user_active_error : ℕ
user_active_error = 5405

-- ENUM_ROLE_STATUS_CODE_ERROR
abbrev pub role_is_inactive_error : ℕ
role_is_inactive_error = 5500

abbrev pub role_not_found_error : ℕ
role_not_found_error = 5501

abbrev pub role_exist_error : ℕ
role_exist_error = 5502

abbrev pub role_active_error : ℕ
role_active_error = 5503

abbrev pub role_used_error : ℕ
role_used_error = 5504

-- ENUM_SETTING_STATUS_CODE_ERROR, ENUM_REQUEST_STATUS_CODE_ERROR, ENUM_STATUS_CODE_ERROR
abbrev pub setting_not_found_error : ℕ
setting_not_found_error = 5900

abbrev pub request_validation_error : ℕ
request_validation_error = 5981

abbrev pub request_timestamp_invalid_error : ℕ
request_timestamp_invalid_error = 5982

abbrev pub request_user_agent_invalid_error : ℕ
request_user_agent_invalid_error = 5983

abbrev pub unknown_error : ℕ
unknown_error = 5990

abbrev pub service_unavailable_error : ℕ
service_unavailable_error = 5991

-- ENUM_FILE_STATUS_CODE_ERROR
abbrev pub file_needed_error : ℕ
file_needed_error = 5950

abbrev pub file_max_size_error : ℕ
file_max_size_error = 5951

abbrev pub file_extension_error : ℕ
file_extension_error = 5952

abbrev pub file_max_error : ℕ
file_max_error = 5953
