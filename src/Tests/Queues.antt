-- ===== src/Tests/Queues.antt =====
-- The theorems on queues, at a queue of two elements.
use network_etc.Base.{◌≡◌, refl, some, [], ◌∷◌, ◌==◌, if◌then◌else◌, arith}
use network_etc.Queue.{Queue, append}
use network_etc.Queue.Refinement.{Holds, append-Holds}

-- The elements at the addresses 100 and 200.
abbrev queue : Queue
queue = record { next = λ a. if a == 100 then 200 else 0; head = 100; tail = 200; size = 2 }

queue-Holds : Holds queue (100 ∷ 200 ∷ [])
queue-Holds = record {
  chain = (refl, (λ h. absurd (omega arith)), (refl, (λ h. absurd (omega arith)), refl));
  last = refl;
  distinct = (((λ h. absurd (omega arith)), tt), (tt, tt));
  count = refl;
}

append-Holds_example : (q' : Queue) × (append 300 queue ≡ some q') × Holds q' (100 ∷ 200 ∷ 300 ∷ [])
append-Holds_example =
    append-Holds queue (100 ∷ 200 ∷ []) 300 queue-Holds (λ h. absurd (omega arith))
      ((λ h. absurd (omega arith)), ((λ h. absurd (omega arith)), tt)) (omega arith)
