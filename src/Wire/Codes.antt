-- ===== src/Wire/Codes.antt =====
-- Constants of corev5/v2/message/message.go and identifier.go; the reason codes are in Reasons. A
-- `byte` is a number below 256.
mod Reasons
unfoldable pub use Reasons.*
use simq.Base.{ℕ, ◌^◌, ◌<◌, Bool, false, ◌&&◌, ◌||◌, List, [], ◌∷◌, ltb, ◌==◌, if◌then◌else◌}

abbrev pub IsByte : ℕ → Type 0
IsByte b = b < 256

abbrev pub IsU16 : ℕ → Type 0
IsU16 v = v < 2 ^ 16

abbrev pub IsU32 : ℕ → Type 0
IsU32 v = v < 2 ^ 32

-- `MessageType`; no constant names the values from 17 on.

abbrev pub reserved : ℕ
reserved = 0

abbrev pub connect : ℕ
connect = 1

abbrev pub connack : ℕ
connack = 2

abbrev pub publish : ℕ
publish = 3

abbrev pub puback : ℕ
puback = 4

abbrev pub pubrec : ℕ
pubrec = 5

abbrev pub pubrel : ℕ
pubrel = 6

abbrev pub pubcomp : ℕ
pubcomp = 7

abbrev pub subscribe : ℕ
subscribe = 8

abbrev pub suback : ℕ
suback = 9

abbrev pub unsubscribe : ℕ
unsubscribe = 10

abbrev pub unsuback : ℕ
unsuback = 11

abbrev pub pingreq : ℕ
pingreq = 12

abbrev pub pingresp : ℕ
pingresp = 13

abbrev pub disconnect : ℕ
disconnect = 14

abbrev pub auth : ℕ
auth = 15

abbrev pub reserved2 : ℕ
reserved2 = 16

-- `PropertyCode`, the ones that the modelled packets use.

abbrev pub payload_format : ℕ
payload_format = 0x01

abbrev pub message_expiry : ℕ
message_expiry = 0x02

abbrev pub content_type : ℕ
content_type = 0x03

abbrev pub response_topic : ℕ
response_topic = 0x08

abbrev pub related_data : ℕ
related_data = 0x09

abbrev pub defining_identifiers : ℕ
defining_identifiers = 0x0B

abbrev pub session_expiry : ℕ
session_expiry = 0x11

abbrev pub server_reference : ℕ
server_reference = 0x1C

abbrev pub topic_alias : ℕ
topic_alias = 0x23

abbrev pub reason_string : ℕ
reason_string = 0x1F

abbrev pub user_property : ℕ
user_property = 0x26

-- `MessageType.Valid`.
abbrev pub valid_type : ℕ → Bool
valid_type t = ltb reserved t && ltb t reserved2

-- `MessageType.DefaultFlags`: 2 for PUBREL, SUBSCRIBE and UNSUBSCRIBE, and 0 for the rest.
unfoldable pub default_flags : ℕ → ℕ
default_flags t = if t == pubrel || t == subscribe || t == unsubscribe then 2 else 0

-- `ValidQos`: QosAtMostOnce, QosAtLeastOnce or QosExactlyOnce.
abbrev pub valid_qos : ℕ → Bool
valid_qos q = q == 0 || q == 1 || q == 2

abbrev pub max_remaining_length : ℕ
max_remaining_length = 268435455

abbrev pub max_lp_string : ℕ
max_lp_string = 65535
