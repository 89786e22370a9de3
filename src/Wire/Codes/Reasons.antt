-- ===== src/Wire/Codes/Reasons.antt =====
-- Reason codes of corev5/v2/message/identifier.go, and the tables of util.go that say which of them a
-- packet may have.
use simq.Base.{ℕ, Bool, false, ◌||◌, List, [], ◌∷◌, ◌==◌}

abbrev pub success : ℕ
success = 0x00

abbrev pub normal_disconnected : ℕ
normal_disconnected = success

abbrev pub qos0 : ℕ
qos0 = success

abbrev pub qos1 : ℕ
qos1 = 0x01

abbrev pub qos2 : ℕ
qos2 = 0x02

abbrev pub disconnection_includes_will : ℕ
disconnection_includes_will = 0x04

abbrev pub no_match_subscription : ℕ
no_match_subscription = 0x10

abbrev pub no_exist_subscription : ℕ
no_exist_subscription = 0x11

abbrev pub continue_authentication : ℕ
continue_authentication = 0x18

abbrev pub re_authentication : ℕ
re_authentication = 0x19

abbrev pub unspecified_error : ℕ
unspecified_error = 0x80

abbrev pub invalid_message : ℕ
invalid_message = 0x81

abbrev pub protocol_error : ℕ
protocol_error = 0x82

abbrev pub implement_error : ℕ
implement_error = 0x83

abbrev pub un_supported_protocol_version : ℕ
un_supported_protocol_version = 0x84

abbrev pub customer_identifier_invalid : ℕ
customer_identifier_invalid = 0x85

abbrev pub user_name_or_password_is_incorrect : ℕ
user_name_or_password_is_incorrect = 0x86

abbrev pub un_authorized : ℕ
un_authorized = 0x87

abbrev pub server_unavailable : ℕ
server_unavailable = 0x88

abbrev pub service_busy : ℕ
service_busy = 0x89

abbrev pub forbid : ℕ
forbid = 0x8A

abbrev pub server_being_shut_down : ℕ
server_being_shut_down = 0x8B

abbrev pub invalid_authentication_method : ℕ
invalid_authentication_method = 0x8C

abbrev pub keep_alive_timeout : ℕ
keep_alive_timeout = 0x8D

abbrev pub session_takeover : ℕ
session_takeover = 0x8E

abbrev pub invalid_topic_filter : ℕ
invalid_topic_filter = 0x8F

abbrev pub invalid_topic_name : ℕ
invalid_topic_name = 0x90

abbrev pub packet_identifier_is_occupied : ℕ
packet_identifier_is_occupied = 0x91

abbrev pub packet_identifier_invalid : ℕ
packet_identifier_invalid = 0x92

abbrev pub maximum_number_received_exceeded : ℕ
maximum_number_received_exceeded = 0x93

abbrev pub invalid_topic_alias : ℕ
invalid_topic_alias = 0x94

abbrev pub message_too_long : ℕ
message_too_long = 0x95

abbrev pub too_many_messages : ℕ
too_many_messages = 0x96

abbrev pub beyond_quota : ℕ
beyond_quota = 0x97

abbrev pub management_behavior : ℕ
management_behavior = 0x98

abbrev pub invalid_load_format : ℕ
invalid_load_format = 0x99

abbrev pub unsupported_retention : ℕ
unsupported_retention = 0x9A

abbrev pub unsupported_qos_level : ℕ
unsupported_qos_level = 0x9B

abbrev pub use_other_servers : ℕ
use_other_servers = 0x9C

abbrev pub server_has_moved : ℕ
server_has_moved = 0x9D

abbrev pub unsupported_shared_subscriptions : ℕ
unsupported_shared_subscriptions = 0x9E

abbrev pub exceeded_connection_rate_limit : ℕ
exceeded_connection_rate_limit = 0x9F

abbrev pub maximum_connection_time : ℕ
maximum_connection_time = 0xA0

abbrev pub unsupported_subscription_identifiers : ℕ
unsupported_subscription_identifiers = 0xA1

abbrev pub unsupported_wildcard_subscriptions : ℕ
unsupported_wildcard_subscriptions = 0xA2

-- `switch code { case …: return true }`.
pub one_of : ℕ → List ℕ → Bool
one_of c [] = false
one_of c (x ∷ xs) = c == x || one_of c xs

unfoldable pub valid_disconnect_reason_code : ℕ → Bool
unfolding one_of
valid_disconnect_reason_code c = one_of c (
    normal_disconnected ∷ disconnection_includes_will ∷ unspecified_error ∷ protocol_error
    ∷ implement_error ∷ un_authorized ∷ service_busy ∷ server_being_shut_down ∷ keep_alive_timeout
    ∷ session_takeover ∷ invalid_topic_filter ∷ invalid_topic_name
    ∷ maximum_number_received_exceeded ∷ invalid_topic_alias ∷ message_too_long ∷ too_many_messages
    ∷ beyond_quota ∷ management_behavior ∷ invalid_load_format ∷ unsupported_retention
    ∷ unsupported_qos_level ∷ use_other_servers ∷ server_has_moved
    ∷ unsupported_shared_subscriptions ∷ exceeded_connection_rate_limit ∷ maximum_connection_time
    ∷ unsupported_subscription_identifiers ∷ unsupported_wildcard_subscriptions ∷ [])

unfoldable pub valid_auth_reason_code : ℕ → Bool
unfolding one_of
valid_auth_reason_code c = one_of c (success ∷ continue_authentication ∷ re_authentication ∷ [])

unfoldable pub valid_unsuback_reason_code : ℕ → Bool
unfolding one_of
valid_unsuback_reason_code c = one_of c (
    success ∷ no_exist_subscription ∷ unspecified_error ∷ implement_error ∷ un_authorized
    ∷ invalid_topic_filter ∷ packet_identifier_is_occupied ∷ [])

unfoldable pub valid_suback_reason_code : ℕ → Bool
unfolding one_of
valid_suback_reason_code c = one_of c (
    success ∷ qos1 ∷ qos2 ∷ unspecified_error ∷ implement_error ∷ un_authorized
    ∷ invalid_topic_filter ∷ packet_identifier_is_occupied ∷ beyond_quota
    ∷ unsupported_shared_subscriptions ∷ unsupported_subscription_identifiers
    ∷ unsupported_wildcard_subscriptions ∷ [])

unfoldable pub valid_pubcomp_reason_code : ℕ → Bool
unfolding one_of
valid_pubcomp_reason_code c = one_of c (success ∷ packet_identifier_invalid ∷ [])

unfoldable pub valid_pubrel_reason_code : ℕ → Bool
unfolding one_of
valid_pubrel_reason_code c = one_of c (success ∷ packet_identifier_invalid ∷ [])

unfoldable pub valid_pubrec_reason_code : ℕ → Bool
unfolding one_of
valid_pubrec_reason_code c = one_of c (
    success ∷ no_match_subscription ∷ unspecified_error ∷ implement_error ∷ un_authorized
    ∷ invalid_topic_name ∷ packet_identifier_is_occupied ∷ beyond_quota ∷ invalid_load_format ∷ [])

unfoldable pub valid_puback_reason_code : ℕ → Bool
unfolding one_of
valid_puback_reason_code c = one_of c (
    success ∷ no_match_subscription ∷ unspecified_error ∷ implement_error ∷ un_authorized
    ∷ invalid_topic_name ∷ packet_identifier_is_occupied ∷ beyond_quota ∷ invalid_load_format ∷ [])

unfoldable pub valid_connack_reason_code : ℕ → Bool
unfolding one_of
valid_connack_reason_code c = one_of c (
    success ∷ unspecified_error ∷ invalid_message ∷ protocol_error ∷ implement_error
    ∷ un_supported_protocol_version ∷ customer_identifier_invalid
    ∷ user_name_or_password_is_incorrect ∷ un_authorized ∷ server_unavailable ∷ service_busy
    ∷ forbid ∷ invalid_authentication_method ∷ invalid_topic_name ∷ message_too_long ∷ beyond_quota
    ∷ invalid_load_format ∷ unsupported_retention ∷ unsupported_qos_level ∷ use_other_servers
    ∷ server_has_moved ∷ exceeded_connection_rate_limit ∷ [])
