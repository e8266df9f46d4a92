-- ===== src/Processor/Pack.antt =====
-- `pack_request_batch` of src/processor/gpu.rs. A word of 32 bits lies in memory as its four bytes, the
-- lowest first.

use gput.Base.{
  ℕ, ◌+◌, ◌*◌, ◌/◌, ◌%◌, ◌^◌, List, [], ◌∷◌, ◌++◌, ltb, leb, if◌then◌else◌, length, replicate,
  Outcome, ok, err, ◌>>=◌, ◌>>◌, ensure, copy_at,
}
use gput.Base.{word_count_overflow, length_not_u32, word_offset_not_u32, request_beyond_slot}
use gput.Router.Body.{Bytes}
use gput.Router.Emit.{try_u32}

pub record RequestMeta : Type 0 where
  pub input_len : ℕ
  pub word_offset : ℕ

unfoldable pub words_for_bytes : ℕ → Outcome ℕ
words_for_bytes bytes =
    if ltb (bytes + 3) (2 ^ 64) then ok ((bytes + 3) / 4) else err word_count_overflow

-- The bytes of words in memory, and the words that bytes stand for: `cast_slice_mut`.
abbrev pub word_bytes : ℕ → Bytes
word_bytes w = w % 256 ∷ w / 256 % 256 ∷ w / 65536 % 256 ∷ w / 16777216 ∷ []

unfoldable pub cast_slice : List ℕ → Bytes
cast_slice [] = []
cast_slice (w ∷ words) = word_bytes w ++ cast_slice words

abbrev pub le_word : ℕ → ℕ → ℕ → ℕ → ℕ
le_word a b c d = a + b * 256 + c * 65536 + d * 16777216

unfoldable pub words_of : Bytes → List ℕ
words_of (a ∷ b ∷ c ∷ d ∷ bytes) = le_word a b c d ∷ words_of bytes
words_of _ = []

unfoldable pub pack_request_words : Bytes → List ℕ → Outcome (List ℕ)
pack_request_words request destination =
    copy_at (cast_slice destination) 0 request >>= λ bytes. ok (words_of bytes)

-- The loop over the requests. The words grow by zeros, which the request then overwrites.
unfoldable pub pack_from :
    ℕ → List RequestMeta → List ℕ → List Bytes → Outcome (List RequestMeta × List ℕ)
pack_from max_request_bytes metadata words [] = ok (metadata, words)
pack_from max_request_bytes metadata words (request ∷ requests) = do
  ensure (leb (length request) max_request_bytes) request_beyond_slot
  request_words ← words_for_bytes (length request)
  packed ← pack_request_words request (replicate request_words 0)
  input_len ← try_u32 (length request) length_not_u32
  word_offset ← try_u32 (length words) word_offset_not_u32
  pack_from max_request_bytes
      (metadata ++ record { input_len = input_len; word_offset = word_offset } ∷ [])
      (words ++ packed) requests

-- Metadata and words are cleared first.
unfoldable pub pack_request_batch : List Bytes → ℕ → Outcome (List RequestMeta × List ℕ)
pack_request_batch requests max_request_bytes = pack_from max_request_bytes [] [] requests
