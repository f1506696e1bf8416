-- ===== src/Ack/Tests.antt =====
-- Runs of the manager, and its theorems at concrete inputs.
use zqim.Prelude.{ℕ, ◌+◌, ◌≡◌, refl, [], ◌∷◌, Option, none, some, arith, ◌==◌, if◌then◌else◌}
use zqim.Prelude.Maps
use zqim.Conn.{accept}
use zqim.Heap.{AckMessage}
use zqim.Heap.Members.{In}
use zqim.Heap.Ops.{IsValid}
use zqim.Ack.{World, get_connect, push, delete, tick}
use zqim.Ack.Inv.{IsConsistent, Deleted, delete-Deleted}
use zqim.Ack.Push.{push-IsConsistent}
use zqim.Ack.Collision.{tick-shadowed}

-- A message for user 9, with the id 5.
abbrev message : ℕ → Option ℕ → ℕ → AckMessage
message timeout index ntime = record {
  body = 1 ∷ [];
  msgid = 5;
  grop_or_one = 2;
  receiver = 9;
  timeout = timeout;
  index = index;
  ntime = ntime;
}

-- User 9 is connected, by the connection at address 0; nothing waits.
abbrev quiet : World
quiet = record {
  cons = (9, 0) ∷ [];
  conn = λ a. record accept { id = 9 };
  msgheap = record { len = 0; at = λ i. 0; msg = λ p. message 0 none 0 };
  push_ch = [];
  del_ch = [];
  next = 1;
}

quiet-IsConsistent : IsConsistent quiet
unfolding get_connect Maps.lookup accept
quiet-IsConsistent = record {
  heap = record { heap = λ c p l. absurd (omega arith); indexed = λ c l. absurd (omega arith) };
  single = λ u v a e f. ground arith;
  tracked = λ uid a k p e x. absurd (ground arith);
  unique = λ p q (i, l, e) j x y. absurd (omega arith);
}

absent : ¬ In quiet.msgheap 0
absent (i, l, e) = absurd (omega arith)

-- The message is pushed at time 100.
abbrev waiting : World
waiting = push 100 0 quiet

waiting-IsConsistent : IsConsistent waiting
unfolding get_connect Maps.lookup
waiting-IsConsistent =
    (push-IsConsistent 100 0 0 quiet quiet-IsConsistent absent
      (λ q (i, l, e) x y. absurd (omega arith)) refl).0

push-IsConsistent_example : IsConsistent (push 100 0 quiet) × In (push 100 0 quiet).msgheap 0
unfolding get_connect Maps.lookup
push-IsConsistent_example =
    push-IsConsistent 100 0 0 quiet quiet-IsConsistent absent
      (λ q (i, l, e) x y. absurd (omega arith)) refl

delete-Deleted_example : Deleted 5 9 waiting (delete 5 9 waiting)
delete-Deleted_example = delete-Deleted 5 9 waiting waiting-IsConsistent

-- Two messages with the id 5 wait for user 9; the context knows the second.
abbrev crowded : World
crowded = record quiet {
  conn = λ a. record accept { ctx = (5, 1) ∷ [] };
  msgheap = record {
    len = 2;
    at = λ i. i;
    msg = λ p. message (10 + p) (if p == 2 then none else some p) 4;
  };
}

crowded-IsValid : IsValid crowded.msgheap
crowded-IsValid = record { heap = λ c p l. ground arith; indexed = λ c l. ground arith }

tick-shadowed_example : tick 100 crowded ≡ none
unfolding get_connect Maps.lookup
tick-shadowed_example =
    tick-shadowed 100 0 crowded crowded-IsValid refl (omega arith) (omega arith) refl refl
