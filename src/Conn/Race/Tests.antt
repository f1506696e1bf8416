-- ===== src/Conn/Race/Tests.antt =====
-- Two goroutines at one connection.
use zqim.Prelude.{ℕ, ◌≤◌, ◌≡◌, refl, true, false, [], ◌∷◌, length}
use zqim.Frame.{Request}
use zqim.Heap.{update}
use zqim.Conn.{chan_size}
use zqim.Conn.Race.{
  called, checked, ClosePc, entered, swapped, CloseMove, swap_works, passes, Shared, System, writes,
  closes, Steps, still, later,
}
use zqim.Conn.Race.Inv.{won, is_checked}
use zqim.Conn.Race.Safety.{IsUnclosed, IsFresh, Steps-sound, panic_reachable}

abbrev ack : Request
ack = record { typ = 4; body_len = 1; flag = 0; body = 7 ∷ [] }

abbrev idle : System
idle = record {
  mem = record {
    is_close = false;
    exit_closed = false;
    chan_closed = false;
    write_chan = [];
    panicked = false;
  };
  writer = λ i. called ack;
  closer = λ i. entered;
}

idle-IsUnclosed : IsUnclosed idle
idle-IsUnclosed = record {
  sound = refl;
  unclosed = refl;
  exit_unclosed = refl;
  chan_unclosed = refl;
  unentered = λ i. refl;
}

-- The first goroutine writes, up to its select, and the second one wins the swap of Close.
abbrev begun : System
begun = record {
  mem = record {
    is_close = true;
    exit_closed = false;
    chan_closed = false;
    write_chan = [];
    panicked = false;
  };
  writer = update (λ i. called ack) 0 (checked ack);
  closer = update (λ i. entered) 1 swapped;
}

idle-begun : Steps idle begun
idle-begun = later (later still (writes 0 refl (passes refl))) (closes 1 refl (swap_works refl))

idle-IsFresh : IsFresh idle
idle-IsFresh = record { open_yet = idle-IsUnclosed; nothing_waits = refl }

Steps-sound_example :
    ((i j : ℕ) → won (begun.closer i) ≡ true → won (begun.closer j) ≡ true → i ≡ j)
    × ((i : ℕ) (n : Shared) (q : ClosePc)
        → begun.mem.panicked ≡ false
        → CloseMove begun.mem (begun.closer i) n q
        → n.panicked ≡ false)
    × (length begun.mem.write_chan ≤ chan_size)
    × (begun.mem.panicked ≡ true
        → (i : ℕ) × (is_checked (begun.writer i) ≡ true) × (begun.mem.chan_closed ≡ true))
Steps-sound_example = Steps-sound idle-IsFresh idle-begun

panic_reachable_example : (t : System) × Steps idle t × (t.mem.panicked ≡ true)
panic_reachable_example = panic_reachable idle-IsUnclosed 0 1 ack refl
