-- ===== src/Tests/Logs.antt =====
-- The theorem on messages of the replicated log, at the value of three bytes.
use network_etc.Base.{◌≡◌, refl, true, some, arith}
use network_etc.Memblock.{Memblock}
use network_etc.Memblock.Contents.{contents}
use network_etc.LogMsg.{ReplicatedLogMsg, init, write, read}
use network_etc.LogMsg.Sending.{value_lost}
use network_etc.Text.{decimal}
use network_etc.Tests.Blocks.{block-IsValid}
use network_etc.Tests.Cell.{block, zeros, length-zeros}

abbrev blank : ReplicatedLogMsg
blank = record { node_id = 0; restart_counter = 0; lease_epoch = 0; value = block }

abbrev socket : Memblock
socket = record { store = zeros 40; capacity = 40; read_pt = 0; write_pt = 0; size = 0; flag = 2 }

value_lost_example :
    (m' : ReplicatedLogMsg) × (out' : Memblock) × (init zeros blank 1 70 12 block ≡ some m')
    × (write zeros m' socket ≡ some out')
    × (read blank (contents out')
        ≡ some (record blank { node_id = 1; restart_counter = 70; lease_epoch = 12 }, true))
unfolding decimal
value_lost_example =
    value_lost zeros length-zeros blank blank 1 70 12 block socket block-IsValid (omega arith)
      (omega arith) (record { allocated = refl; spans = refl; fits = omega arith }) refl
      (omega arith) (omega arith) (omega arith) (omega arith) (omega arith)
