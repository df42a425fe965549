-- ===== src/Queue.antt =====
-- PL/Queue.h: an intrusive queue. An element is an address other than 0, the null pointer, and `next`
-- is the content of the `pnext` members. `size` is an `int`, as its 32 bits.
pub mod Refinement
use network_etc.Base.{
  ℕ, zero, suc, ◌+◌, ◌-◌, ◌%◌, Bool, true, false, Option, none, some, ◌==◌, if◌then◌else◌, u32,
}

pub record Queue : Type 0 where
  pub next : ℕ → ℕ
  pub head : ℕ
  pub tail : ℕ
  pub size : ℕ

-- `elem->*pnext = v`
abbrev pub store : (ℕ → ℕ) → ℕ → ℕ → ℕ → ℕ
store next elem v other = if other == elem then v else next other

-- `Append`; `none` is its assertion.
pub append : ℕ → Queue → Option Queue
append elem q =
    if elem == 0
    then none
    else (let next = store q.next elem 0 in
        if q.tail == 0
        then some (record { next = next; head = elem; tail = elem; size = (q.size + 1) % u32 })
        else some (record {
          next = store next q.tail elem;
          head = q.head;
          tail = elem;
          size = (q.size + 1) % u32;
        }))

-- `Get`: the queue that is left, and the element or 0.
pub get : Queue → Queue × ℕ
get q = if q.head == 0 then (q, 0) else (
  record {
    next = store q.next q.head 0;
    head = q.next q.head;
    tail = if q.tail == q.head then 0 else q.tail;
    size = (q.size + u32 - 1) % u32;
  },
  q.head,
)

-- The loop of `Clear`, on fuel; `none` is a loop that goes on.
pub clear : ℕ → Queue → Option Queue
clear zero q = none
clear (suc fuel) q =
    let more = clear fuel (get q).0 in if (get q).1 == 0 then some (get q).0 else more
