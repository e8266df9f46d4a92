-- ===== src/Processor/Packing.antt =====
-- The requests are read back from the packed words of src/processor/gpu.rs.
use mathlib.Core.List.{append_assoc, append-nil}
use gput.Base.{
  ℕ, ◌+◌, ◌*◌, ◌/◌, ◌^◌, ◌≤◌, ◌<◌, max, ◌≡◌, inl, inr, refl, sym, ap, ◌∙◌, List, [], ◌∷◌, ◌++◌, map,
  arith, ltb, leb, length, replicate, take, drop, All, Error, ok, copy_at, Bool-cases, lt→ltb,
  le→leb, length-append, length-drop, length-replicate, take-append_left, drop-append_left,
  All-append, All-drop,
}
use gput.Base.Yields
use gput.Base.Yields.{Yields, yields, fails, panics}
use gput.Base.{length_not_u32, word_offset_not_u32, request_beyond_slot}
use gput.Router.Body.{Bytes}
use gput.Router.Emit.{try_u32}
use gput.Processor.Pack.{
  RequestMeta, words_for_bytes, cast_slice, words_of, pack_request_words, pack_from,
  pack_request_batch,
}
use gput.Processor.Words.{
  AreBytes, cast_slice-words_of, cast_slice-append, length-cast_slice, cast_slice-zeros,
  copy_at-front, All-replicate,
}

-- What the shader reads: `input_len` bytes from the word `word_offset` on.
abbrev pub read_back : List ℕ → RequestMeta → Bytes
read_back words meta = take meta.input_len (drop (meta.word_offset * 4) (cast_slice words))

-- A request fills the first bytes of its words.
record Filled (request : Bytes) (n : ℕ) (packed : List ℕ) : Type 0 where
  zeros : Bytes
  bytes : cast_slice packed ≡ request ++ zeros
  size : length packed ≡ n

pack_request_words-Filled :
    (request : Bytes) (n : ℕ)
    → AreBytes request
    → length request ≤ n * 4
    → (packed : List ℕ) × (pack_request_words request (replicate n 0) ≡ ok packed)
      × Filled request n packed
unfolding pack_request_words
pack_request_words-Filled request n h k =
    let slots = replicate (n * 4) 0 in
    let room = length-replicate {A = ℕ} (n * 4) 0 in
    let zeros = drop (length request) slots in
    let written : copy_at (cast_slice (replicate n 0)) 0 request ≡ ok (request ++ zeros) =
      ap (λ t. copy_at t 0 request) (cast_slice-zeros n)
      ∙ copy_at-front slots request (omega (arith, k, room)) in
    let total : length (request ++ zeros) ≡ n * 4 =
      omega (arith, length-append request zeros, length-drop (length request) slots, room, k) in
    let are_bytes =
      All-append (λ (x : ℕ). x < 256) request zeros h
        (All-drop (λ (x : ℕ). x < 256) (length request) slots (All-replicate (n * 4))) in
    let back = cast_slice-words_of n (request ++ zeros) total are_bytes in
    (
      words_of (request ++ zeros),
      rw (written, pack_request_words) refl,
      record {
        zeros = zeros;
        bytes = back;
        size =
            omega (arith, length-cast_slice (words_of (request ++ zeros)), ap length back, total);
      },
    )

packed_Filled :
    (request : Bytes) (n : ℕ)
    → AreBytes request
    → length request ≤ n * 4
    → Yields (Filled request n) (pack_request_words request (replicate n 0))
packed_Filled request n h k =
    let (packed, returned, f) = pack_request_words-Filled request n h k in rw returned (yields f)

-- What the loop adds, and that it is read back as the requests.
record Packed (metadata : List RequestMeta) (words : List ℕ) (requests : List Bytes)
    (out : List RequestMeta × List ℕ) : Type 0 where
  entries : List RequestMeta
  appended : out.0 ≡ metadata ++ entries
  more : List ℕ
  extended : out.1 ≡ words ++ more
  back : map (read_back out.1) entries ≡ requests

words_for_bytes-covers : (n : ℕ) → Yields (λ w. n ≤ w * 4) (words_for_bytes n)
unfolding words_for_bytes
words_for_bytes-covers n = elim (Bool-cases (ltb (n + 3) (2 ^ 64))) [
  | inl fits ↦ rw (fits, words_for_bytes) (yields (omega arith))
  | inr large ↦ rw (large, words_for_bytes) fails
]

exactly : (n : ℕ) (e : Error) → Yields (λ m. m ≡ n) (try_u32 n e)
exactly n e = elim (Bool-cases (ltb n (2 ^ 32))) [
  | inl fits ↦ rw fits (yields refl)
  | inr large ↦ rw large fails
]

read_back-Filled :
    (request : Bytes) (n : ℕ) (words packed more : List ℕ) (meta : RequestMeta)
    → Filled request n packed
    → meta.input_len ≡ length request
    → meta.word_offset ≡ length words
    → read_back ((words ++ packed) ++ more) meta ≡ request
read_back-Filled request n words packed more meta f len offset =
    let front = cast_slice words in
    let tail = f.zeros ++ cast_slice more in
    let bytes : cast_slice ((words ++ packed) ++ more) ≡ front ++ request ++ tail =
      cast_slice-append (words ++ packed) more
      ∙ ap (λ t. t ++ cast_slice more)
          (cast_slice-append words packed
            ∙ ap (λ t. front ++ t) f.bytes
            ∙ sym (append_assoc front request f.zeros))
      ∙ append_assoc (front ++ request) f.zeros (cast_slice more) in
    ap (λ k. take k (drop (meta.word_offset * 4) (cast_slice ((words ++ packed) ++ more)))) len
    ∙ ap (λ k. take (length request) (drop k (cast_slice ((words ++ packed) ++ more))))
        (ap (λ k. k * 4) offset ∙ sym (length-cast_slice words))
    ∙ ap (λ t. take (length request) (drop (length front) t))
        (bytes ∙ append_assoc front request tail)
    ∙ ap (take (length request)) (drop-append_left front (request ++ tail))
    ∙ take-append_left request tail

pack_from-Packed :
    (max : ℕ) (metadata : List RequestMeta) (words : List ℕ) (requests : List Bytes)
    → All AreBytes requests
    → Yields (Packed metadata words requests) (pack_from max metadata words requests)
unfolding pack_from
pack_from-Packed max metadata words [] h = yields (record {
  entries = [];
  appended = sym (append-nil metadata);
  more = [];
  extended = sym (append-nil words);
  back = refl;
})
pack_from-Packed max metadata words (request ∷ requests) h =
    Yields.bind (Yields.ensured (leb (length request) max) request_beyond_slot) λ _ _.
      Yields.bind (words_for_bytes-covers (length request)) λ n covers.
        Yields.bind (packed_Filled request n h.0 covers) λ packed f.
          Yields.bind (exactly (length request) length_not_u32) λ len is_len.
            Yields.bind (exactly (length words) word_offset_not_u32) λ offset is_offset.
              let meta : RequestMeta = record { input_len = len; word_offset = offset } in
              Yields.mono
                (pack_from-Packed max (metadata ++ meta ∷ []) (words ++ packed) requests h.1)
                λ out p. record {
                  entries = meta ∷ p.entries;
                  appended = p.appended ∙ append_assoc metadata (meta ∷ []) p.entries;
                  more = packed ++ p.more;
                  extended = p.extended ∙ append_assoc words packed p.more;
                  back = λ i.
                      (ap (λ w. read_back w meta) p.extended
                          ∙ read_back-Filled request n words packed p.more meta f is_len is_offset)
                        i
                      ∷ p.back i;
                }

-- The words that the requests take.
abbrev pub total_words : List Bytes → ℕ
total_words [] = 0
total_words (request ∷ requests) = (length request + 3) / 4 + total_words requests

pack_from-step :
    (max : ℕ) (metadata : List RequestMeta) (words : List ℕ) (request : Bytes)
    (requests : List Bytes) (packed : List ℕ)
    → length request ≤ max
    → length request < 2 ^ 32
    → length words < 2 ^ 32
    → pack_request_words request (replicate ((length request + 3) / 4) 0) ≡ ok packed
    → pack_from max metadata words (request ∷ requests)
      ≡ pack_from max
          (metadata ++ record { input_len = length request; word_offset = length words } ∷ [])
          (words ++ packed)
          requests
unfolding pack_from words_for_bytes
pack_from-step max metadata words request requests packed fits small room returned =
    rw
      (
        le→leb (length request) max fits,
        lt→ltb (length request + 3) (2 ^ 64) (omega arith),
        returned,
        lt→ltb (length request) (2 ^ 32) small,
        lt→ltb (length words) (2 ^ 32) room,
      )
      refl

pack_from-returns :
    (max : ℕ) (metadata : List RequestMeta) (words : List ℕ) (requests : List Bytes)
    → All AreBytes requests
    → All (λ (r : Bytes). length r ≤ max) requests
    → max < 2 ^ 32
    → length words + total_words requests < 2 ^ 32
    → (out : List RequestMeta × List ℕ) × (pack_from max metadata words requests ≡ ok out)
unfolding pack_from
pack_from-returns max metadata words [] h fits small room = ((metadata, words), refl)
pack_from-returns max metadata words (request ∷ requests) h fits small room =
    let n = (length request + 3) / 4 in
    let (packed, returned, f) = pack_request_words-Filled request n h.0 (omega arith) in
    let step =
      pack_from-step max metadata words request requests packed fits.0
        (omega (arith, fits.0, small)) (omega (arith, room)) returned in
    let (out, end) =
      pack_from-returns max
        (metadata ++ record { input_len = length request; word_offset = length words } ∷ [])
        (words ++ packed) requests h.1 fits.1 small
        (omega (arith, length-append words packed, f.size, room)) in
    (out, step ∙ end)

-- A batch of requests that each fit the slot, and whose words can be counted with 32 bits, is packed:
-- there is one entry of metadata for each request, in order, and the bytes that it describes in the
-- packed words are those of the request.
pub pack_request_batch-read_back :
    (requests : List Bytes) (max_request_bytes : ℕ)
    → All AreBytes requests
    → All (λ (r : Bytes). length r ≤ max_request_bytes) requests
    → max_request_bytes < 2 ^ 32
    → total_words requests < 2 ^ 32
    → (out : List RequestMeta × List ℕ) × (pack_request_batch requests max_request_bytes ≡ ok out)
      × (map (read_back out.1) out.0 ≡ requests)
unfolding pack_request_batch
pack_request_batch-read_back requests max_request_bytes h fits small room =
    let (out, returned) =
      pack_from-returns max_request_bytes [] [] requests h fits small (omega (arith, room)) in
    let p = Yields.value out (pack_from-Packed max_request_bytes [] [] requests h) returned in
    (out, returned, ap (map (read_back out.1)) p.appended ∙ p.back)
