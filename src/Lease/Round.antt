-- ===== src/Lease/Round.antt =====
-- A round of PaxosLease between a proposer and acceptors of its cell: PL/PaxosLease.cpp over the
-- messages of PL/PLeaseMsg.cpp, each sent as its text and read from it.
pub mod Wires
pub mod Promising
pub mod Counting
pub mod Winning
pub mod Holding
pub mod Acquiring
pub mod Yielding
pub mod Excluding
use network_etc.Base.{ℕ, ◌≡◌, Option, none, some, List, [], ◌∷◌, ◌>>=◌}
use network_etc.Lease.Msg
use network_etc.Lease.Msg.{PLeaseMsg, encode}
use network_etc.Lease.Node.{Node, Action, send}
use network_etc.Lease.PaxosLease.{on_read}

-- The datagram of a message reaches a node.
unfoldable pub deliver : PLeaseMsg → Node → Option Node
deliver m n = encode m >>= λ text. on_read text n

-- The message that a node sent last.
abbrev pub last_sent : List Action → Option PLeaseMsg
last_sent (send to m ∷ trace) = some m
last_sent _ = none

-- A broadcast reaches acceptors one after the other, and the answer of each reaches the proposer.
pub exchange : PLeaseMsg → List Node → Node → Option (List Node × Node)
exchange m [] p = some ([], p)
exchange m (a ∷ peers) p = do
  a' ← deliver m a
  answer ← last_sent a'.trace
  p₁ ← deliver answer p
  (peers', p₂) ← exchange m peers p₁
  some (a' ∷ peers', p₂)
