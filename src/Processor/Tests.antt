-- ===== src/Processor/Tests.antt =====
-- Runs of the GPU processor's host code on small inputs, and the theorems on them.

use gput.Base.{ℕ, ◌≡◌, List, [], ◌∷◌, map, arith, ok}
use gput.Base.Text.{codes}
use gput.Router.Body.{Bytes}
use gput.Processor.Pack.{RequestMeta, cast_slice, pack_request_batch}
use gput.Processor.Packing.{read_back, pack_request_batch-read_back}
use gput.Processor.Decode.{ResponseMeta, decode_responses}
use gput.Processor.Decoding.{meta_words, slots, decode_responses-slots}

abbrev requests : List Bytes
requests = codes "abcde" ∷ [] ∷ codes "f" ∷ []

pack_request_batch-read_back_example :
    (out : List RequestMeta × List ℕ) × (pack_request_batch requests 8 ≡ ok out)
    × (map (read_back out.1) out.0 ≡ requests)
pack_request_batch-read_back_example =
    pack_request_batch-read_back requests 8
      (
        (omega arith, (omega arith, (omega arith, (omega arith, (omega arith, tt))))),
        (tt, ((omega arith, tt), tt)),
      )
      (omega arith, (omega arith, (omega arith, tt))) (omega arith) (omega arith)

abbrev metas : List ResponseMeta
metas =
    record { output_len = 3; status = 200; flags = 0 }
    ∷ record { output_len = 9; status = 200; flags = 0 }
    ∷ []

decode_responses-slots_example :
    decode_responses 2 2 (cast_slice (meta_words metas)) (codes "abcdefghABCDEFGH")
    ≡ slots 8 (codes "abcdefghABCDEFGH") 0 metas
decode_responses-slots_example =
    decode_responses-slots 2 (codes "abcdefghABCDEFGH") metas (omega arith)
