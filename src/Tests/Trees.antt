-- ===== src/Tests/Trees.antt =====
-- The theorems on the red-black tree and the timers, at the examples.
use network_etc.Base.{
  true, ℕ, ◌*◌, ◌-◌, ◌≡◌, refl, Bool, false, some, [], ◌∷◌, ltb, ◌==◌, if◌then◌else◌, ◌>>=◌, arith,
}
use network_etc.RbTree.{Tree, sentinel, left_rotate, descend, attach}
use network_etc.RbTree.Shapes.{Shape, leaf, node, top, in_left, in_order, plug, Surrounds, Hangs}
use network_etc.RbTree.Rotating.{left_rotate-Hangs}
use network_etc.RbTree.Hanging.{hang}
use network_etc.RbTree.Ordering.{Ordered, descend-Ordered}
use network_etc.Timer.{Timer, infinite, find, expire}
use network_etc.Timer
use network_etc.Timer.Alone.{IsFirst, outcome, add-expire}
use network_etc.Timer.Earliest.{IsArmed, Earliest, find-Earliest}

-- Node 4 is the root; its left child is 2, whose right child is 3. Node 5 is not in the tree.
abbrev tree : Tree
tree = record {
  root = 4;
  key = λ c. c * 10;
  left = λ c. if c == 4 then 2 else 1;
  right = λ c. if c == 2 then 3 else 1;
  parent = λ c. if c == 3 then 2 else if c == 2 then 4 else 0;
  red = λ c. c == 3;
}

abbrev low : Shape
low = node leaf 2 (node leaf 3 leaf)

abbrev whole : Shape
whole = node low 4 leaf

whole-Hangs : Hangs tree 4 0 whole
whole-Hangs = (refl, refl, (refl, refl, refl, (refl, refl, refl, refl)), refl)

left_rotate-Hangs_example :
    Surrounds (left_rotate tree 2) 3 (in_left top 4 leaf)
    × Hangs (left_rotate tree 2) 3 4 (node (node leaf 2 leaf) 3 leaf)
    × (in_order (plug (in_left top 4 leaf) (node (node leaf 2 leaf) 3 leaf))
        ≡ in_order (plug (in_left top 4 leaf) low))
left_rotate-Hangs_example =
    left_rotate-Hangs tree (in_left top 4 leaf) 2 3 leaf leaf leaf (refl, refl, refl, refl)
      (refl, refl, refl, (refl, refl, refl, refl))
      (record {
        proper = omega arith;
        distinct = omega arith;
        apart = omega arith;
        inside = omega arith;
        outside = omega arith;
      })

descend-Ordered_example :
    (q : ℕ) × (side : Bool) × (descend 3 tree 4 5 ≡ some (q, side))
    × Hangs (attach tree q side 5) 4 0 (hang tree 5 whole)
    × Ordered (attach tree q side 5).key (hang tree 5 whole)
descend-Ordered_example =
    descend-Ordered 0 3 tree 5 4 0 low 4 leaf whole-Hangs
      (record { inside = omega arith; fresh = omega arith; distinct = omega arith }) (omega arith)
      (omega arith) (omega arith) (omega arith) (omega arith)

-- Node 2 is the root and has no left child; node 3 below it has two children.
abbrev bare : Tree
bare = record {
  root = 2;
  key = λ c. c;
  left = λ c. if c == 3 then 4 else 1;
  right = λ c. if c == 2 then 3 else if c == 3 then 5 else 1;
  parent = λ c. if c == 2 then 0 else if c == 3 then 2 else 3;
  red = λ c. false;
}

abbrev below : Shape
below = node (node leaf 4 leaf) 3 (node leaf 5 leaf)

abbrev timer : Timer
timer = record { now = 15; holder = tree; timer_on = λ c. false; posted = [] }

timer-IsArmed : IsArmed timer 0 3 low 4 leaf
timer-IsArmed = record {
  hung = whole-Hangs;
  inside = omega arith;
  ordered = omega arith;
  near = omega arith;
  near_now = omega arith;
  enough = omega arith;
}

find-Earliest_example :
    (q : ℕ) × Earliest timer whole q
    × (find 3 timer ≡ some (if ltb 15 (tree.key q) then tree.key q - 15 else infinite))
find-Earliest_example = find-Earliest timer 0 3 low 4 leaf timer-IsArmed

-- No event is set.
abbrev idle : Timer
idle = record timer { holder = record tree { root = sentinel } }

idle-IsFirst : IsFirst idle 5 20
idle-IsFirst = record {
  none_set = refl;
  not_null = omega arith;
  not_sentinel = omega arith;
  positive = omega arith;
  near = omega arith;
  in_range = omega arith;
  off = refl;
}

add-expire_example :
    ((Timer.add 0 idle 5 20 >>= find 1) ≡ some 20)
    × (outcome 2 idle 5 20 34 ≡ some (false, [], true))
    × (outcome 2 idle 5 20 35 ≡ some (true, 5 ∷ [], false))
add-expire_example =
    add-expire idle 5 20 34 35 idle-IsFirst (omega arith) (omega arith) (omega arith) (omega arith)
      (omega arith) 0
