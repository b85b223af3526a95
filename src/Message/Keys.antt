-- ===== src/Message/Keys.antt =====
-- message.go, messages.go and channel.go: the keys of headers and the content types of the hello
-- exchange, the heartbeats and the latency probes.
use channel.Base.{ℕ}
use channel.Message.{minus_one}

abbrev pub connection_id_header : ℕ
connection_id_header = 0

abbrev pub result_success_header : ℕ
result_success_header = 2

abbrev pub heartbeat_header : ℕ
heartbeat_header = 5

abbrev pub heartbeat_response_header : ℕ
heartbeat_response_header = 6

abbrev pub type_header : ℕ
type_header = 7

abbrev pub id_header : ℕ
id_header = 8

abbrev pub is_grouped_header : ℕ
is_grouped_header = 9

abbrev pub group_secret_header : ℕ
group_secret_header = 10

abbrev pub is_first_group_connection : ℕ
is_first_group_connection = 11

abbrev pub underlay_type_header : ℕ
underlay_type_header = 12

abbrev pub hello_reject_class_header : ℕ
hello_reject_class_header = 13

abbrev pub content_type_hello : ℕ
content_type_hello = 0

abbrev pub content_type_result : ℕ
content_type_result = 2

abbrev pub content_type_latency : ℕ
content_type_latency = 3

abbrev pub content_type_latency_response : ℕ
content_type_latency_response = 4

abbrev pub content_type_heartbeat : ℕ
content_type_heartbeat = 5

abbrev pub content_type_raw : ℕ
content_type_raw = 6

-- The sequence of a hello and of the answer to it.
abbrev pub hello_sequence : ℕ
hello_sequence = minus_one
