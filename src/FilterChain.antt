-- ===== src/FilterChain.antt =====
-- `CFilterTail::FilterWrite` of netfram/FilterChain.cpp: a message goes into the session's block,
-- which is written at once or when the poll reports room. The other filters only pass calls on.
pub mod Delivery
use network_etc.Base.{
  ℕ, ◌+◌, ◌*◌, ◌≡◌, Bool, true, false, ◌||◌, Option, none, some, Bytes, length, ltb, ◌==◌,
  if◌then◌else◌, ◌>>=◌,
}
use network_etc.Memblock.{Memblock, get_space, get_direct_space, resize, shrink, write}

-- What `FilterWrite` leaves: the block, and whether the poll waits for room to write.
pub record Written : Type 0 where
  pub block : Memblock
  pub polled : Bool

-- `new char[n]` gives `n` bytes of whatever content.
module _ (alloc : ℕ → Bytes) where
  abbrev pub larger : ℕ → ℕ → ℕ
  larger a b = if ltb b a then a else b

  -- Room for `n` more bytes.
  unfoldable pub make_room : Memblock → ℕ → Option Memblock
  make_room m n =
      if ltb (get_space m) n
      then resize alloc m (larger (m.capacity * 2) (m.size + n))
      else if ltb (get_direct_space m) n
      then shrink m
      else some m

  -- `own`: the message lies in the block already.
  unfoldable pub queue_message : Memblock → Bytes → Bool → Option Memblock
  queue_message m message own =
      if length message == 0 || own
      then some m
      else (make_room m (length message) >>= λ m₁. write alloc m₁ message)

-- `CEventDo::Write` writes the block to the socket: what it leaves, and whether it answers
-- MINA_AGAIN.
module _ (alloc : ℕ → Bytes) (event_write : Memblock → Memblock × Bool) where
  -- `direct`: IsDirectWrite of the configuration.
  pub deliver : Bool → Memblock → Written
  deliver direct m =
      if m.size == 0
      then record { block = m; polled = false }
      else if direct
      then record { block = (event_write m).0; polled = (event_write m).1 }
      else record { block = m; polled = true }

  pub filter_write : Bool → Memblock → Bytes → Bool → Option Written
  unfolding deliver
  filter_write direct m message own =
      queue_message alloc m message own >>= λ m'. some (deliver direct m')
