-- ===== src/Wire/Tests.antt =====
-- Runs of the codec at concrete bytes, and its theorems there.
use tuning_tools.Base.{ℕ, ◌+◌, ◌<◌, ◌≡◌, refl, List, [], ◌∷◌, ◌++◌, flatten, some, arith}
use tuning_tools.Base.Bytes.{to_le_bytes}
use tuning_tools.Wire.{crc16, encode, feed, empty, Frame, Decoder}
use tuning_tools.Wire.Feed.{idle, feed_pieces, feed-pieces, feed-lt, feed_total}
use tuning_tools.Wire.RoundTrip.{encode_all, feed-encode}
use tuning_tools.Wire.Altered.{feed-altered}

crc_check_value : crc16 (0x31 ∷ 0x32 ∷ 0x33 ∷ 0x34 ∷ 0x35 ∷ 0x36 ∷ 0x37 ∷ 0x38 ∷ 0x39 ∷ []) ≡ 0x6f91
unfolding crc16
crc_check_value = refl

abbrev hello_header : List ℕ
hello_header = 0xa5 ∷ 0x01 ∷ 0x01 ∷ 0x00 ∷ 0x02 ∷ 0x01 ∷ 0x00 ∷ 0x00 ∷ []

hello_vector : encode 1 0x0102 [] ≡ some (hello_header ++ to_le_bytes 2 (crc16 hello_header))
unfolding encode
hello_vector = refl

abbrev hello : Frame
hello = record { cmd = 1; seq = 0x0102; payload = [] }

abbrev hello_bytes : List ℕ
hello_bytes = hello_header ++ (0xab ∷ 0x6e ∷ [])

-- A magic byte in the noise, then a frame with a wrong checksum, then a frame.
feed_noise :
    feed empty (0 ∷ 0xa5 ∷ 0x13 ∷ hello_header ++ (1 ∷ 2 ∷ hello_bytes))
    ≡ some (record { buf = []; bad_frames = 2 }, hello ∷ [])
unfolding feed crc16
feed_noise = refl

feed-encode_example : feed (idle 3) (7 ∷ 8 ∷ hello_bytes) ≡ some (idle 3, hello ∷ [])
unfolding encode_all encode crc16
feed-encode_example =
    feed-encode 3 ((7 ∷ 8 ∷ [], hello) ∷ []) (7 ∷ 8 ∷ hello_bytes) (omega arith) refl

feed-pieces_example :
    feed_pieces empty (0xa5 ∷ 0x01 ∷ []) ((0x01 ∷ []) ∷ (0x00 ∷ 0x02 ∷ []) ∷ [])
    ≡ feed empty (0xa5 ∷ 0x01 ∷ 0x01 ∷ 0x00 ∷ 0x02 ∷ [])
unfolding flatten
feed-pieces_example = feed-pieces empty (0xa5 ∷ 0x01 ∷ []) ((0x01 ∷ []) ∷ (0x00 ∷ 0x02 ∷ []) ∷ [])

-- The second byte of the checksum, 0x6e, becomes 0x6f.
feed-altered_example :
    feed (idle 0) (hello_header ++ (0xab ∷ 0x6f ∷ []))
    ≡ feed (idle 1) (0x01 ∷ 0x01 ∷ 0x00 ∷ 0x02 ∷ 0x01 ∷ 0x00 ∷ 0x00 ∷ 0xab ∷ 0x6f ∷ [])
unfolding crc16 encode feed
feed-altered_example =
    feed-altered hello (hello_header ++ (0xab ∷ [])) [] 0x6e 0x6f [] 0 (omega arith) refl
      (omega arith) (omega arith) (omega arith)

feed-lt_example : 8 < 8 + 256 + 2
unfolding feed
feed-lt_example =
    feed-lt empty hello_header (record { buf = hello_header; bad_frames = 0 }, []) refl

feed_total_example : (r : Decoder × List Frame) × (feed empty hello_header ≡ some r)
feed_total_example = feed_total empty hello_header
