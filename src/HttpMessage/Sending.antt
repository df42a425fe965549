-- ===== src/HttpMessage/Sending.antt =====
-- `EncodeMessage`: the whole message behind the contents of the block, or nothing.
use network_etc.Base.{ℕ, ◌+◌, ◌≤◌, ◌<◌, ◌≡◌, Bytes, ◌++◌, length}
use network_etc.Memblock
use network_etc.Memblock.{Memblock}
use network_etc.Memblock.Contents.{contents}
use network_etc.Memblock.Append
use network_etc.HttpMessage.{HttpMessage, Result, too_big, ok, crlf, with_length}
use network_etc.HttpMessage.Printing.{fields_text}

-- How sending `head` and `body` ends: there has to be room for the head and a zero.
pub data Sent (b : Memblock) (head body : Bytes) (b' : Memblock) (r : Result) : Type 0 where
  sent :
      b.write_pt + length head < b.capacity
      → (n : ℕ) → r ≡ ok n
      → contents b' ≡ contents b ++ (head ++ body)
      → Sent b head body b' r
  rejected :
      b.capacity ≤ b.write_pt + length head
      → r ≡ too_big
      → contents b' ≡ contents b
      → Sent b head body b' r

-- The text of a message before its body, where its first line is `first`.
abbrev pub head_of : HttpMessage → Bytes → Bytes
head_of m first = first ++ (fields_text (with_length m).fields ++ crlf)
