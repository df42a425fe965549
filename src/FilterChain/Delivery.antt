-- ===== src/FilterChain/Delivery.antt =====
-- A message is appended to what the block holds, whatever its length (netfram/FilterChain.cpp).
use network_etc.Base.{◌==◌, ◌==◌}
use network_etc.Memblock.{Memblock}
