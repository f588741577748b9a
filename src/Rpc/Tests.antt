-- ===== src/Rpc/Tests.antt =====
-- examples/rpc/RpcChannel.cpp: a codec with metas and messages of one byte, and the theorems at it.
use ecron.Prelude.{
  List, Option, [], arith, false, length, none, ok, refl, replicate, some, true, ℕ, ◌++◌, ◌∷◌, ◌≡◌,
}
use Prim.{tt}
use ecron.Buffer.{Buffer}
use ecron.Buffer.Fifo.{Holds}
use ecron.TcpConnection.{send}
use ecron.Rpc.Frame.{packed}
use ecron.Rpc.Stream.{messages, wire}
use ecron.Rpc.Pack.{pack_send-Packed}
use ecron.Rpc.Stuck.{process-stuck}
use ecron.Rpc.Chunks.{receive_all-Delivered}
use ecron.Rpc.Plain.{big_endian, number}
use ecron.Rpc.{Channel, Codec, IsLawful, make_header, pack_send, parse_header, process, receive_all}

abbrev one_byte : List ℕ → Option ℕ
one_byte [] = none
one_byte (a ∷ []) = some a
one_byte (a ∷ b ∷ rest) = none

abbrev bytewise : Codec ℕ ℕ
bytewise = record {
  network_to_host = number;
  host_to_network = big_endian;
  parse_meta = one_byte;
  meta_bytes = λ m. m ∷ [];
  meta_size = λ m. 1;
  message_bytes = λ x. x ∷ [];
  message_size = λ x. 1;
}

bytewise-IsLawful : IsLawful bytewise
bytewise-IsLawful = record {
  four_bytes = λ n. refl;
  same_number = λ n h. omega arith;
  parsed = λ m. refl;
  meta_length = λ m. refl;
  message_length = λ x. refl;
}

-- The messages (5, 6) and (7, none).
abbrev two : List (ℕ × Option ℕ)
two = (5, some 6) ∷ (7, none) ∷ []

pack_send-Packed_example :
    (b : Buffer) × Holds b (packed bytewise 5 (some 6))
    × (pack_send bytewise true 5 (some 6) ≡ ok (send (some b) ∷ []))
    × (pack_send bytewise false 5 (some 6) ≡ ok [])
pack_send-Packed_example = pack_send-Packed bytewise bytewise-IsLawful 5 (some 6) (omega arith)

-- A meta of no byte does not parse.
abbrev bad : Channel ℕ
bad = record {
  buffer = record {
    buff = 69 ∷ 82 ∷ 80 ∷ 67 ∷ 0 ∷ 0 ∷ 0 ∷ 0 ∷ 0 ∷ 0 ∷ 0 ∷ 0 ∷ [];
    read_index = 0;
    write_index = 12;
  };
  connected = true;
  handled = [];
  closes = 0;
}

process-stuck_example : process bytewise 50 bad ≡ ok none
unfolding parse_header
process-stuck_example = process-stuck bytewise 50 0 0 bad (omega arith) refl (omega arith) refl

abbrev empty_channel : Channel ℕ
empty_channel = record {
  buffer = record { buff = []; read_index = 0; write_index = 0 };
  connected = true;
  handled = [];
  closes = 0;
}

-- The bytes of both messages, cut inside of a header and of a body.
abbrev three_chunks : List (List ℕ)
three_chunks =
    (69 ∷ 82 ∷ 80 ∷ [])
    ∷ (67 ∷ 0 ∷ 0 ∷ 0 ∷ 2 ∷ 0 ∷ 0 ∷ 0 ∷ 1 ∷ 5 ∷ 6 ∷ 69 ∷ 82 ∷ 80 ∷ 67 ∷ 0 ∷ 0 ∷ 0 ∷ 1 ∷ 0 ∷ 0 ∷ 0
        ∷ 1 ∷ [])
    ∷ (7 ∷ [])
    ∷ []

receive_all-Delivered_example :
    (b : Buffer) × (receive_all bytewise 3 empty_channel three_chunks
      ≡ ok (some (record empty_channel { buffer = b; handled = [] ++ messages bytewise two })))
    × Holds b []
unfolding wire packed make_header
receive_all-Delivered_example =
    receive_all-Delivered bytewise bytewise-IsLawful 3 three_chunks two empty_channel
      (record { valid = omega arith; bytes = refl }) refl (omega arith, (omega arith, tt))
      (omega arith, (omega arith, (omega arith, tt))) (omega arith) (omega arith)

-- Metas and messages of any number of bytes, which are 0.
zeros : ℕ → List ℕ
zeros n = replicate n 0

abbrev wide : Codec ℕ ℕ
wide = record {
  network_to_host = number;
  host_to_network = big_endian;
  parse_meta = λ bytes. some (length bytes);
  meta_bytes = zeros;
  meta_size = λ m. m;
  message_bytes = zeros;
  message_size = λ x. x;
}
