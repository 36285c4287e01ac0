-- ===== src/Tests/Values.antt =====
-- Test data: an environment, a message and the connections between two hosts.
use cn_project.Base.{ℕ, List, [], ◌∷◌, ◌+◌, ◌%◌}
use cn_project.Tcp.{Env, FloatUnit, TcpConnection, new_connection}

abbrev pub floats : FloatUnit
floats = record {
  mul = λ a b. b;
  add = λ a b. (a + b) % 0x80000000;
  of_int64 = λ a. a;
  to_uint64 = λ a. a;
}

-- Packets of three bytes; the memory behind a message holds the number 99.
abbrev pub env : Env
env = record { packet_size = 3; now = 1000; floats = floats; beyond = λ i. 99; indeterminate = 77 }

abbrev pub message : List ℕ
message = 10 ∷ 11 ∷ 12 ∷ 13 ∷ 14 ∷ 15 ∷ 16 ∷ []

-- The connection of host "a" to host "b", and that of "b" to "a".
abbrev pub sender : TcpConnection
sender = new_connection env "a" "b" 500

abbrev pub receiver : TcpConnection
receiver = new_connection env "b" "a" 500
