-- ===== src/Tests/Streams.antt =====
-- DNS over TCP, at a packet of 12 bytes that the writer takes in pieces.
use cotten_router.Prelude.{◌≡◌, refl, List, [], ◌∷◌, ◌++◌, arith, Bytes, take, ok, err, nat_eq}
use cotten_router.Router.Frame.{
  read_tcp_message, read_body, read_full, WriteCall, wrote, failed, write_all, write_framed,
  write_failed, unexpected_eof,
}
use cotten_router.Router.Frame.Wire.{read_tcp_message-write_framed, write_framed-sent}

abbrev packet : Bytes
packet = 1 ∷ 2 ∷ 3 ∷ 4 ∷ 5 ∷ 6 ∷ 7 ∷ 8 ∷ 9 ∷ 10 ∷ 11 ∷ 12 ∷ []

abbrev pieces : List WriteCall
pieces = wrote 1 ∷ wrote 1 ∷ wrote 7 ∷ wrote 5 ∷ []

read_tcp_message-write_framed_example :
    read_tcp_message ((0 ∷ 12 ∷ packet) ++ (0 ∷ 99 ∷ [])) 512 ≡ (ok packet, 0 ∷ 99 ∷ [])
unfolding write_framed write_all
read_tcp_message-write_framed_example =
    read_tcp_message-write_framed pieces [] packet (0 ∷ 12 ∷ packet) (0 ∷ 99 ∷ []) 512 (omega arith)
      (omega arith) (omega arith) refl

write_framed-sent_example : (packet ≡ packet) × (◌≡◌ {A = Bytes} [] [])
unfolding write_framed write_all read_tcp_message read_full read_body
write_framed-sent_example =
    write_framed-sent (wrote 2 ∷ failed 12 ∷ []) packet (0 ∷ 12 ∷ packet) packet []
      (err write_failed) 512 (omega arith) (omega arith) (omega arith) refl refl

cut_frame : read_tcp_message (0 ∷ 12 ∷ take 5 packet) 512 ≡ (err unexpected_eof, [])
unfolding read_tcp_message read_full read_body
cut_frame = refl
