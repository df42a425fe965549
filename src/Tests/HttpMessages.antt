-- ===== src/Tests/HttpMessages.antt =====
-- The theorems on messages of HTTP, at a small request.
use network_etc.Base.{◌≡◌, refl, none, Bytes, arith, codes}
use network_etc.Text.{decimal}
use network_etc.Memblock.{Memblock}
use network_etc.Memblock.Contents.{IsValid}
use network_etc.HttpMessage.{
  HttpMessage, request, empty, add_header, del_header, set_body, with_length, encode_message,
}
use network_etc.HttpMessage.Sending.{head_of}
use network_etc.HttpMessage.Printing.{fields_text}
use network_etc.HttpMessage.{get_header}
use network_etc.HttpMessage.Headers.{get_header-add_header}
use network_etc.HttpMessage.Overrun.{encode_message_overruns}
use network_etc.Tests.Cell.{zeros}

abbrev get_root : HttpMessage
get_root =
    (set_body (add_header (empty (request (codes "GET") (codes "/"))) (codes "Host") (codes "a") 44)
      (codes "hi")).0

abbrev first : Bytes
first = codes "GET / HTTP/1.1\r\n"

-- An allocation of 64 bytes, and one of which 16 bytes have been read.
abbrev room : Memblock
room = record { store = zeros 64; capacity = 64; read_pt = 0; write_pt = 0; size = 0; flag = 2 }

abbrev read_room : Memblock
read_room = record {
  store = zeros 24;
  capacity = 24;
  read_pt = 16;
  write_pt = 16;
  size = 0;
  flag = 2;
}

read_room-IsValid : IsValid read_room
read_room-IsValid = record { allocated = refl; spans = refl; fits = omega arith }

encode_message_overruns_example : encode_message zeros get_root read_room ≡ none
unfolding set_body add_header empty
encode_message_overruns_example =
    encode_message_overruns zeros get_root read_room first read_room-IsValid refl (omega arith)
      (omega arith)

get_header-add_header_example :
    get_header (add_header get_root (codes "Host") (codes "b") 44) (codes "Host") ≡ codes "a,b"
unfolding get_header set_body add_header empty
get_header-add_header_example =
    get_header-add_header get_root (codes "Host") (codes "b") (codes "Host") 44 (omega arith)

-- The text of the request before its body.
encoded : head_of get_root first ≡ codes "GET / HTTP/1.1\r\nContent-Length:2\r\nHost:a\r\n\r\n"
unfolding with_length del_header set_body add_header empty fields_text decimal
encoded = refl
