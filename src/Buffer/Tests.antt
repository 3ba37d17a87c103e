-- ===== src/Buffer/Tests.antt =====
-- A run of the buffer.
use ddzproject.Prelude.{◌+◌, ◌^◌, ◌≡◌, refl, some, [], ◌∷◌}
use ddzproject.Buffer.{
  DataBuffer, databuffer_readheader, databuffer_read, read_messages, header_of, ready, negative,
}

-- A header of four bytes with its highest bit set is a negative size, which stays pending.
abbrev from_network : DataBuffer
from_network = record {
  header = 0;
  offset = 0;
  size = 5;
  messages = (128 ∷ 0 ∷ 0 ∷ 1 ∷ 65 ∷ []) ∷ [];
}

stuck :
    databuffer_readheader from_network 4
    ≡ some (
      negative (2 ^ 31 + 1),
      record {
        header = 2 ^ 31 + 1;
        offset = 4;
        size = 1;
        messages = (128 ∷ 0 ∷ 0 ∷ 1 ∷ 65 ∷ []) ∷ [];
      },
    )
unfolding databuffer_readheader databuffer_read read_messages header_of ready
stuck = refl
