-- ===== src/Processor/Decode.antt =====
-- `decode_responses` of src/processor/gpu.rs.

use gput.Base.{
  ℕ, zero, suc, ◌+◌, ◌*◌, not, ◌||◌, List, [], ◌∷◌, ltb, ◌==◌, Outcome, ok, ◌>>=◌, ◌>>◌, ensure,
  slice,
}
use gput.Base.{shader_failed, invalid_response_length}
use gput.Router.Body.{Bytes}
use gput.Processor.Pack.{words_of}

pub record ResponseMeta : Type 0 where
  pub output_len : ℕ
  pub status : ℕ
  pub flags : ℕ

-- `pod_read_unaligned` of the four words of a `ResponseMeta`.
unfoldable pub meta_of_words : List ℕ → ResponseMeta
meta_of_words (output_len ∷ status ∷ flags ∷ _) = record {
  output_len = output_len;
  status = status;
  flags = flags;
}
meta_of_words _ = record { output_len = 0; status = 0; flags = 0 }

unfoldable pub read_meta : Bytes → ℕ → Outcome ResponseMeta
read_meta meta_data meta_start =
    slice meta_data meta_start (meta_start + 16) >>= λ bytes. ok (meta_of_words (words_of bytes))

-- One response, with the checks of its metadata.
unfoldable pub decode_one : ℕ → Bytes → ℕ → ResponseMeta → Outcome Bytes
decode_one response_stride_bytes output_data request_index meta = do
  ensure (meta.flags == 0) shader_failed
  ensure (not (meta.output_len == 0 || ltb response_stride_bytes meta.output_len))
      invalid_response_length
  slice output_data (request_index * response_stride_bytes)
      (request_index * response_stride_bytes + meta.output_len)

-- The loop, from `request_index` on, for `left` more requests.
unfoldable pub decode_from : ℕ → Bytes → Bytes → ℕ → ℕ → Outcome (List Bytes)
decode_from response_stride_bytes meta_data output_data request_index zero = ok []
decode_from response_stride_bytes meta_data output_data request_index (suc left) = do
  meta ← read_meta meta_data (request_index * 16)
  response ← decode_one response_stride_bytes output_data request_index meta
  responses ← decode_from response_stride_bytes meta_data output_data (request_index + 1) left
  ok (response ∷ responses)

unfoldable pub decode_responses : ℕ → ℕ → Bytes → Bytes → Outcome (List Bytes)
decode_responses response_stride_words request_count meta_data output_data =
    decode_from (response_stride_words * 4) meta_data output_data 0 request_count
