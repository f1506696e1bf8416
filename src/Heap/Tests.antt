-- ===== src/Heap/Tests.antt =====
-- Runs of the heap, and its theorems at concrete inputs.
use zqim.Prelude.{ℕ, zero, suc, ◌≡◌, refl, List, [], ◌∷◌, Option, none, some, arith, true, false}
use zqim.Heap.{AckMessage, Heap, update, push_back, less, swap, up, push}
use zqim.Heap.Ops.{IsValid}
use zqim.Heap.Refines.{
  Op, push_op, pop_op, delete_op, Waiting, run_ops, Allowed, pushed, taken, AllowedAll, ReadyAll,
  Implements, run_ops-Refines,
}

abbrev message : ℕ → Option ℕ → AckMessage
message timeout index = record {
  body = [];
  msgid = timeout;
  grop_or_one = 2;
  receiver = 1;
  timeout = timeout;
  index = index;
  ntime = 1;
}

-- The store of the messages: the one at address `p` times out at `deadline p`.
abbrev deadline : ℕ → ℕ
deadline zero = 7
deadline (suc zero) = 5
deadline (suc (suc zero)) = 9
deadline p = 3

abbrev idle : Heap
idle = record { len = 0; at = λ i. 0; msg = λ p. message (deadline p) none }

abbrev loaded : Heap
loaded = push (push (push (push idle 0) 1) 2) 3

abbrev listed : ℕ → Heap → List ℕ
listed zero h = []
listed (suc k) h = h.at k ∷ listed k h

loaded_order : listed 4 loaded ≡ 0 ∷ 2 ∷ 1 ∷ 3 ∷ []
unfolding push push_back up less swap
loaded_order = refl

idle-IsValid : IsValid idle
idle-IsValid = record {
  heap = λ c p q. absurd (omega arith);
  indexed = λ c p. absurd (omega arith);
}

abbrev nobody : Waiting
nobody p = false

idle-Implements : Implements deadline idle nobody
idle-Implements = record {
  valid = idle-IsValid;
  members = λ p. (λ m. absurd (omega (arith, m.1)), λ t. absurd (ground (arith, t)));
  timeouts = λ p. refl;
  marked = λ p f. refl;
}

abbrev asked : List Op
asked = push_op 0 ∷ push_op 1 ∷ pop_op ∷ delete_op 0 ∷ []

after_pop :
    (b : Waiting) (o : Option ℕ) (c : Waiting)
    → Allowed deadline b pop_op o c
    → ReadyAll deadline c (delete_op 0 ∷ [])
after_pop b _ _ (taken p e l) = (tt, λ o c a. tt)

after_second :
    (o : Option ℕ) (c : Waiting)
    → Allowed deadline (update nobody 0 true) (push_op 1) o c
    → ReadyAll deadline c (pop_op ∷ delete_op 0 ∷ [])
after_second _ _ (pushed p) = ((0, refl), after_pop (update (update nobody 0 true) 1 true))

after_first :
    (o : Option ℕ) (c : Waiting)
    → Allowed deadline nobody (push_op 0) o c
    → ReadyAll deadline c (push_op 1 ∷ pop_op ∷ delete_op 0 ∷ [])
after_first _ _ (pushed p) = (refl, after_second)

run_ops-Refines_example :
    (os : List (Option ℕ)) × (h' : Heap) × (c : Waiting) × (run_ops asked idle ≡ some (os, h'))
    × AllowedAll deadline nobody asked os c
    × Implements deadline h' c
run_ops-Refines_example =
    run_ops-Refines deadline asked idle nobody idle-Implements (refl, after_first)
