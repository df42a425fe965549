-- ===== src/Tests/Rings.antt =====
-- The theorems on rings and on the tail of the filters, at the examples.
use network_etc.Base.{refl, true, [], ◌∷◌, ◌==◌, if◌then◌else◌, arith}
use network_etc.Ring.{Links, remove, join}
use network_etc.Ring.Segments.{Ring}
use network_etc.Ring.Removing.{Unlinked, remove-Ring}
use network_etc.Ring.Joining.{join-Ring}
use network_etc.Memblock.{Memblock}

-- Node 1 heads a queue of 2 and 3, and node 4 one of 5.
abbrev queues : Links
queues = record {
  next = λ c.
      if c == 1
      then 2
      else if c == 2
      then 3
      else if c == 3
      then 1
      else if c == 4
      then 5
      else if c == 5
      then 4
      else 0;
  prev = λ c.
      if c == 1
      then 3
      else if c == 2
      then 1
      else if c == 3
      then 2
      else if c == 4
      then 5
      else if c == 5
      then 4
      else 0;
  inside = λ c. true;
}

first-Ring : Ring queues 1 (2 ∷ 3 ∷ [])
first-Ring = ((refl, refl, (refl, refl, (refl, refl))), omega arith)

second-Ring : Ring queues 4 (5 ∷ [])
second-Ring = ((refl, refl, (refl, refl)), omega arith)

remove-Ring_example : Ring (remove queues 2).0 1 (3 ∷ []) × Unlinked queues 2 (remove queues 2)
remove-Ring_example = remove-Ring queues 1 [] 2 (3 ∷ []) first-Ring refl

join-Ring_example : Ring (join queues 1 4) 1 (2 ∷ 3 ∷ 5 ∷ []) × Ring (join queues 1 4) 4 []
join-Ring_example = join-Ring queues 1 4 (2 ∷ 3 ∷ []) 5 [] first-Ring second-Ring (omega arith)
