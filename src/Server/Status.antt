-- ===== src/Server/Status.antt =====
-- The enum `Status` of http/http.hpp, and `table_status` of server/pipeline_h1_tx.cpp. A status that
-- the table lacks has no text.
use lambda.Base.{ℕ, Option, none, some, Bytes, codes}

pub data Status : Type 0 where
  continue switching_protocols processing early_hints ok created accepted : Status
  non_authoritative_info no_content reset_content partial_content multi_status : Status
  already_reported im_used multiple_choices moved_permanently found see_other not_modified : Status
  use_proxy temporary_redirect permanent_redirect bad_request unauthorized payment_required : Status
  forbidden not_found method_not_allowed not_acceptable proxy_auth_required request_timeout : Status
  conflict gone length_required precondition_failed request_entity_too_large : Status
  request_uri_too_long unsupported_media_type requested_range_not_satisfiable : Status
  expectation_failed teapot misdirected_request unprocessable_entity locked : Status
  failed_dependency too_early upgrade_required precondition_required too_many_requests : Status
  request_header_fields_too_large unavailable_for_legal_reasons internal_server_error : Status
  not_implemented bad_gateway service_unavailable gateway_timeout http_version_not_supported :
      Status
  variant_also_negotiates insufficient_storage loop_detected not_extended : Status
  network_authentication_required : Status

-- `std::underlying_type_t<Status>`
unfoldable pub status_code : Status → ℕ
status_code Status.continue = 100
status_code Status.switching_protocols = 101
status_code Status.processing = 102
status_code Status.early_hints = 103
status_code Status.ok = 200
status_code Status.created = 201
status_code Status.accepted = 202
status_code Status.non_authoritative_info = 203
status_code Status.no_content = 204
status_code Status.reset_content = 205
status_code Status.partial_content = 206
status_code Status.multi_status = 207
status_code Status.already_reported = 208
status_code Status.im_used = 226
status_code Status.multiple_choices = 300
status_code Status.moved_permanently = 301
status_code Status.found = 302
status_code Status.see_other = 303
status_code Status.not_modified = 304
status_code Status.use_proxy = 305
status_code Status.temporary_redirect = 307
status_code Status.permanent_redirect = 308
status_code Status.bad_request = 400
status_code Status.unauthorized = 401
status_code Status.payment_required = 402
status_code Status.forbidden = 403
status_code Status.not_found = 404
status_code Status.method_not_allowed = 405
status_code Status.not_acceptable = 406
status_code Status.proxy_auth_required = 407
status_code Status.request_timeout = 408
status_code Status.conflict = 409
status_code Status.gone = 410
status_code Status.length_required = 411
status_code Status.precondition_failed = 412
status_code Status.request_entity_too_large = 413
status_code Status.request_uri_too_long = 414
status_code Status.unsupported_media_type = 415
status_code Status.requested_range_not_satisfiable = 416
status_code Status.expectation_failed = 417
status_code Status.teapot = 418
status_code Status.misdirected_request = 421
status_code Status.unprocessable_entity = 422
status_code Status.locked = 423
status_code Status.failed_dependency = 424
status_code Status.too_early = 425
status_code Status.upgrade_required = 426
status_code Status.precondition_required = 428
status_code Status.too_many_requests = 429
status_code Status.request_header_fields_too_large = 431
status_code Status.unavailable_for_legal_reasons = 451
status_code Status.internal_server_error = 500
status_code Status.not_implemented = 501
status_code Status.bad_gateway = 502
status_code Status.service_unavailable = 503
status_code Status.gateway_timeout = 504
status_code Status.http_version_not_supported = 505
status_code Status.variant_also_negotiates = 506
status_code Status.insufficient_storage = 507
status_code Status.loop_detected = 508
status_code Status.not_extended = 510
status_code Status.network_authentication_required = 511

unfoldable pub table_status : Status → Option Bytes
table_status Status.continue = some (codes "Continue")
table_status Status.switching_protocols = some (codes "Switching Protocols")
table_status Status.processing = some (codes "Processing")
table_status Status.early_hints = none
table_status Status.ok = some (codes "OK")
table_status Status.created = some (codes "Created")
table_status Status.accepted = some (codes "Accepted")
table_status Status.non_authoritative_info = some (codes "Non-Authoritative Information")
table_status Status.no_content = some (codes "No Content")
table_status Status.reset_content = some (codes "Reset Content")
table_status Status.partial_content = some (codes "Partial Content")
table_status Status.multi_status = some (codes "Multi-Status")
table_status Status.already_reported = none
table_status Status.im_used = some (codes "IM Used")
table_status Status.multiple_choices = some (codes "Multiple Choices")
table_status Status.moved_permanently = some (codes "Moved Permanently")
table_status Status.found = some (codes "Found")
table_status Status.see_other = some (codes "See Other")
table_status Status.not_modified = some (codes "Not Modified")
table_status Status.use_proxy = some (codes "Use Proxy")
table_status Status.temporary_redirect = some (codes "Temporary Redirect")
table_status Status.permanent_redirect = some (codes "Permanent Redirect")
table_status Status.bad_request = some (codes "Bad Request")
table_status Status.unauthorized = some (codes "Unauthorized")
table_status Status.payment_required = some (codes "Payment Required")
table_status Status.forbidden = some (codes "Forbidden")
table_status Status.not_found = some (codes "Not Found")
table_status Status.method_not_allowed = some (codes "Method Not Allowed")
table_status Status.not_acceptable = some (codes "Not Acceptable")
table_status Status.proxy_auth_required = some (codes "Proxy Authentication Required")
table_status Status.request_timeout = some (codes "Request Timeout")
table_status Status.conflict = some (codes "Conflict")
table_status Status.gone = some (codes "Gone")
table_status Status.length_required = some (codes "Length Required")
table_status Status.precondition_failed = some (codes "Precondition Failed")
table_status Status.request_entity_too_large = some (codes "Payload Too Large")
table_status Status.request_uri_too_long = some (codes "URI Too Long")
table_status Status.unsupported_media_type = some (codes "Unsupported Media Type")
table_status Status.requested_range_not_satisfiable = some (codes "Range Not Satisfiable")
table_status Status.expectation_failed = some (codes "Expectation Failed")
table_status Status.teapot = some (codes "I'm a teapot")
table_status Status.misdirected_request = none
table_status Status.unprocessable_entity = some (codes "Unprocessable Entity")
table_status Status.locked = some (codes "Locked")
table_status Status.failed_dependency = some (codes "Failed Dependency")
table_status Status.too_early = none
table_status Status.upgrade_required = some (codes "Upgrade Required")
table_status Status.precondition_required = some (codes "Precondition Required")
table_status Status.too_many_requests = some (codes "Too Many Requests")
table_status Status.request_header_fields_too_large = some (codes "Request Header Fields Too Large")
table_status Status.unavailable_for_legal_reasons = some (codes "Unavailable For Legal Reasons")
table_status Status.internal_server_error = some (codes "Internal Server Error")
table_status Status.not_implemented = some (codes "Not Implemented")
table_status Status.bad_gateway = some (codes "Bad Gateway")
table_status Status.service_unavailable = some (codes "Service Unavailable")
table_status Status.gateway_timeout = some (codes "Gateway Time-out")
table_status Status.http_version_not_supported = some (codes "HTTP Version Not Supported")
table_status Status.variant_also_negotiates = some (codes "Variant Also Negotiates")
table_status Status.insufficient_storage = some (codes "Insufficient Storage")
table_status Status.loop_detected = none
table_status Status.not_extended = none
table_status Status.network_authentication_required = some (codes "Network Authentication Required")
