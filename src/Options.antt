-- ===== src/Options.antt =====
-- comit/fxsrv/options.go: the settings of a server, and NewServer of fxsrv.go as far as they go.
-- The callbacks are named by the caller; `cpus` is runtime.NumCPU.
use zqim.Prelude.{ℕ, Option, none, some, List, [], ◌∷◌}

pub record Options (C : Type 0) : Type 0 where
  pub read_buf_max : ℕ
  pub write_buf_max : ℕ
  pub connect_callback : Option C
  pub close_callback : Option C
  pub timeout : ℕ
  pub worksize : ℕ
  pub workchansize : ℕ

-- The setters, each an Option.
pub data Setting (C : Type 0) : Type 0 where
  write_buf_max read_buf_max timeout work_size work_chan_size : ℕ → Setting C
  connect_callback close_callback : C → Setting C

module _ {C : Type 0} where
  unfoldable pub set : Setting C → Options C → Options C
  set (write_buf_max w) o = record o { write_buf_max = w }
  set (read_buf_max r) o = record o { read_buf_max = r }
  set (timeout t) o = record o { timeout = t }
  set (work_size n) o = record o { worksize = n }
  set (work_chan_size n) o = record o { workchansize = n }
  set (connect_callback c) o = record o { connect_callback = some c }
  set (close_callback c) o = record o { close_callback = some c }

  unfoldable pub set_all : List (Setting C) → Options C → Options C
  unfolding set
  set_all [] o = o
  set_all (s ∷ ss) o = set_all ss (set s o)

  unfoldable pub new_options : ℕ → List (Setting C) → Options C
  unfolding set_all
  new_options cpus opts = set_all opts (record {
    read_buf_max = 4096;
    write_buf_max = 4096;
    connect_callback = none;
    close_callback = none;
    timeout = 100;
    worksize = cpus;
    workchansize = cpus;
  })
