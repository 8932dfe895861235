-- ===== src/Observer/Codes.antt =====
-- The codes of the kernel events and of their operations in crates/observer/src/lib.rs.
use mongodb_dam.Common.{ℕ}

abbrev pub event_io_chunk : ℕ
event_io_chunk = 1

abbrev pub event_syscall_latency : ℕ
event_syscall_latency = 2

abbrev pub event_connection : ℕ
event_connection = 3

abbrev pub event_profile : ℕ
event_profile = 4

abbrev pub event_process : ℕ
event_process = 5

abbrev pub event_dns_chunk : ℕ
event_dns_chunk = 6

abbrev pub op_pread : ℕ
op_pread = 1

abbrev pub op_pwrite : ℕ
op_pwrite = 2

abbrev pub op_fsync : ℕ
op_fsync = 3

abbrev pub op_openat : ℕ
op_openat = 4

abbrev pub op_offcpu : ℕ
op_offcpu = 5

abbrev pub op_tcp_connect : ℕ
op_tcp_connect = 6

abbrev pub op_tcp_accept : ℕ
op_tcp_accept = 7

abbrev pub op_tcp_close : ℕ
op_tcp_close = 8

abbrev pub op_tcp_rtt : ℕ
op_tcp_rtt = 9

abbrev pub op_tcp_retransmit : ℕ
op_tcp_retransmit = 10

abbrev pub op_cpu_sample : ℕ
op_cpu_sample = 11

abbrev pub op_fdatasync : ℕ
op_fdatasync = 12

abbrev pub op_lock_wait : ℕ
op_lock_wait = 13

abbrev pub op_page_fault : ℕ
op_page_fault = 14

abbrev pub op_process_exec : ℕ
op_process_exec = 15

abbrev pub op_process_exit : ℕ
op_process_exit = 16

abbrev pub op_tcp_handshake : ℕ
op_tcp_handshake = 17

abbrev pub op_tcp_reset_received : ℕ
op_tcp_reset_received = 18

abbrev pub op_tcp_reset_sent : ℕ
op_tcp_reset_sent = 19

abbrev pub op_tcp_zero_window : ℕ
op_tcp_zero_window = 20

abbrev pub op_tcp_timeout : ℕ
op_tcp_timeout = 21
