-- ===== src/Command.antt =====
-- main.cpp: the commands of the simulator. `none` is a fault of the network, fuel used up in the
-- loops of `handleAdd`, or a wait that has not ended. What main.cpp prints itself goes, by `say`, to
-- the console that the network prints to.
pub mod Loops
use cn_project.Base.{
  ℕ, zero, suc, ◌+◌, ◌%◌, String, Bool, true, false, Option, none, some, List, [], ◌∷◌, str_eq,
  if◌then◌else◌,
}
use cn_project.Tcp.{◌>>=◌}
use cn_project.Nodes.Node.{
  Output, prompt, file_empty, unknown_property, unknown_update, unknown_command,
}
use cn_project.Network.Interface.{NetworkInterface}

-- The standard library's `stringstream`: an extraction is given the variable's value, which stays
-- where nothing can be read. A double is a bit pattern.
pub record CommandStream (S : Type 0) : Type 0 where
  pub next_word : String → S → String × S
  pub next_number : ℕ → S → ℕ × S
  pub next_double : ℕ → S → ℕ × S
  -- `tellg() == -1`
  pub at_end : S → Bool

-- What a command reads from outside: the files, the conversions of a double, and the variables
-- without a value.
pub record CommandEnv : Type 0 where
  pub files : String → Option (List ℕ)
  pub to_uint64 : ℕ → ℕ
  pub to_uint16 : ℕ → ℕ
  pub indeterminate : ℕ

-- A file that cannot be opened is empty.
unfoldable pub read_file_content : CommandEnv → String → List ℕ
read_file_content env path = elim (env.files path) [ none ↦ [] | some content ↦ content ]

-- The loop that fills the dummy data: the digits "0123456" over and over.
unfoldable pub dummy_from : ℕ → ℕ → List ℕ
dummy_from zero i = []
dummy_from (suc rounds) i = (48 + i % 7) ∷ dummy_from rounds (i + 1)

abbrev pub dummy_data : ℕ → List ℕ
dummy_data size = dummy_from size 0

abbrev pub is_empty_data : List ℕ → Bool
is_empty_data [] = true
is_empty_data (b ∷ bs) = false

module _ {S N : Type 0} (stream : CommandStream S) (network : NetworkInterface N)
    (env : CommandEnv) where
  open stream use {next_word, next_number, next_double, at_end}

  -- `while (true) { commandStream >> nodeAddr; ...; if(commandStream.tellg() == -1) break; }`
  unfoldable pub add_all : (String → N → N) → ℕ → String → S → N → Option N
  add_all add zero addr s n = none
  add_all add (suc fuel) addr s n =
      let (word, s') = next_word addr s in
      let rest = add_all add fuel word s' (add word n) in
      if at_end s' then some (add word n) else rest

  unfoldable pub handle_add : ℕ → S → N → Option N
  handle_add fuel s n =
      let (second, s₁) = next_word "" s in
      let (addr1, s₂) = next_word "" s₁ in
      let (addr2, s₃) = next_word "" s₂ in
      let (cost, s₄) = next_number env.indeterminate s₃ in
      if str_eq second "host"
      then add_all network.add_host fuel "" s₁ n
      else if str_eq second "router"
      then add_all network.add_router fuel "" s₁ n
      else if str_eq second "link"
      then network.add_link addr1 addr2 cost n
      else some n

  module _ (say : Output → N → N) where
    unfoldable pub send_data : String → String → List ℕ → S → N → Option N
    send_data sender receiver bytes s n =
        network.command_to_send sender receiver bytes (next_number env.indeterminate s).0 n

    unfoldable pub handle_send : S → N → Option N
    handle_send s n =
        let (sender, s₁) = next_word "" s in
        let (to_word, s₂) = next_word "" s₁ in
        let (receiver, s₃) = next_word "" s₂ in
        let (filename, s₄) = next_word "" s₃ in
        let (size, s₅) = next_number env.indeterminate s₄ in
        let content = read_file_content env filename in
        if str_eq filename "dummy"
        then send_data sender receiver (dummy_data size) s₅ n
        else if is_empty_data content
        then some (say file_empty n)
        else send_data sender receiver content s₄ n

    unfoldable pub handle_set : S → N → N
    handle_set s n =
        let (router_word, s₁) = next_word "" s in
        let (property, s₂) = next_word "" s₁ in
        let (value, s₃) = next_double env.indeterminate s₂ in
        if str_eq property "delay"
        then network.set_router_delay (env.to_uint64 value) n
        else if str_eq property "buffer"
        then network.set_router_buffer_size (env.to_uint16 value) n
        else if str_eq property "drop-rate"
        then network.set_router_drop_rate value n
        else if str_eq property "size"
        then network.set_packet_size (env.to_uint64 value) n
        else say (unknown_property property) n

    unfoldable pub handle_update : S → N → Option N
    handle_update s n =
        let (second, s₁) = next_word "" s in
        let (addr1, s₂) = next_word "" s₁ in
        let (addr2, s₃) = next_word "" s₂ in
        let (cost, s₄) = next_number env.indeterminate s₃ in
        if str_eq second "link"
        then (if at_end s₄
            then network.update_link_cost addr1 addr2 cost n
            else network.temporarily_down_link addr1 addr2 cost (next_number env.indeterminate s₄).0
                n)
        else some (say unknown_update n)

    unfoldable pub handle_remove : S → N → N
    handle_remove s n =
        let (addr1, s₁) = next_word "" s in
        let (addr2, s₂) = next_word "" s₁ in network.remove_link addr1 addr2 n

    unfoldable pub handle_log : S → N → N
    handle_log s n =
        let (second, s₁) = next_word "" s in
        let (addr1, s₂) = next_word "" s₁ in
        let (addr2, s₃) = next_word "" s₂ in network.log_link addr1 addr2 n

    unfoldable pub handle_show : S → N → N
    handle_show s n =
        let (second, s₁) = next_word "" s in
        let (addr, s₂) = next_word "" s₁ in network.show_tables addr n

    -- One round of the loop in `runProgram`.
    unfoldable pub run_command : ℕ → S → N → Option N
    run_command fuel s n =
        let (first, s₁) = next_word "" s in
        if str_eq first "add"
        then handle_add fuel s₁ n
        else if str_eq first "update"
        then handle_update s₁ n
        else if str_eq first "remove"
        then some (handle_remove s₁ n)
        else if str_eq first "run"
        then network.run n >>= network.wait_for_converge
        else if str_eq first "shut"
        then network.shut_down n
        else if str_eq first "log"
        then some (handle_log s₁ n)
        else if str_eq first "draw"
        then some (network.draw n)
        else if str_eq first "show"
        then some (handle_show s₁ n)
        else if str_eq first "send"
        then handle_send s₁ n
        else if str_eq first "set"
        then some (handle_set s₁ n)
        else some (say unknown_command n)

    -- The loop of `runProgram` over the lines of the input so far, each as a stream after a prompt.
    unfoldable pub run_program : ℕ → List S → N → Option N
    run_program fuel [] n = some n
    run_program fuel (line ∷ lines) n =
        run_command fuel line (say prompt n) >>= λ n'. run_program fuel lines n'

    unfoldable pub main_program : ℕ → List S → Option N
    main_program fuel lines = run_program fuel lines network.empty
