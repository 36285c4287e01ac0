-- ===== src/Controller.antt =====
-- NetworkController.cpp: the counters that all nodes share. Each method holds its lock, so a call
-- is one step. `now` is the reading of the system clock.
use cn_project.Base.{ℕ, add64, dec64, ◌==◌, if◌then◌else◌}

pub record NetworkController : Type 0 where
  pub alg_converge_counter : ℕ
  pub running_node_counter : ℕ
  pub start_time : ℕ
  pub end_time : ℕ

-- `getInstance` makes the one instance with both counters at zero.
abbrev pub fresh_controller : NetworkController
fresh_controller = record {
  alg_converge_counter = 0;
  running_node_counter = 0;
  start_time = 0;
  end_time = 0;
}

unfoldable pub set_start_alg_time : ℕ → NetworkController → NetworkController
set_start_alg_time time c = record c { start_time = time }

unfoldable pub inc_converge_counter : NetworkController → NetworkController
inc_converge_counter c = record c { alg_converge_counter = add64 c.alg_converge_counter 1 }

unfoldable pub dec_converge_counter : ℕ → NetworkController → NetworkController
dec_converge_counter now c =
    let left = dec64 c.alg_converge_counter in
    record c { alg_converge_counter = left; end_time = if left == 0 then now else c.end_time }

unfoldable pub inc_running_node_counter : NetworkController → NetworkController
inc_running_node_counter c = record c { running_node_counter = add64 c.running_node_counter 1 }

unfoldable pub dec_running_node_counter : NetworkController → NetworkController
dec_running_node_counter c = record c { running_node_counter = dec64 c.running_node_counter }
