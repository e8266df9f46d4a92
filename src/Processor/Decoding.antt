-- ===== src/Processor/Decoding.antt =====
-- What `decode_responses` of src/processor/gpu.rs returns for the metadata that the shader writes.
use mathlib.Core.List.{append_assoc}
use native.Mathlib.Nat.{mul-le-mul_right}
use gput.Base.{
  ℕ, suc, ◌+◌, ◌-◌, ◌*◌, ◌/◌, ◌%◌, ◌≤◌, ◌≡◌, inl, inr, refl, sym, ap, ◌∙◌, Bool, true, false, not,
  ◌||◌, List, [], ◌∷◌, ◌++◌, arith, ltb, ◌==◌, ◌!=◌, if◌then◌else◌, length, take, drop, Outcome, ok,
  err, ◌>>=◌, slice, Bool-cases, length-append, take-append_left, drop-append_left, slice-eq_ok,
}
use gput.Base.{shader_failed, invalid_response_length}
use gput.Router.Body.{Bytes}
use gput.Processor.Pack.{le_word, cast_slice, words_of}
use gput.Processor.Words.{length-cast_slice, cast_slice-append}
use gput.Processor.Decode.{
  ResponseMeta, meta_of_words, read_meta, decode_one, decode_from, decode_responses,
}

-- The words of the metadata in memory, the last for padding.
abbrev pub meta_words : List ResponseMeta → List ℕ
meta_words [] = []
meta_words (m ∷ metas) = m.output_len ∷ m.status ∷ m.flags ∷ 0 ∷ meta_words metas

-- The responses by the metadata itself: each is the first `output_len` bytes of its slot; the first
-- that has a flag or a length outside its slot is the error.
abbrev pub slots : ℕ → Bytes → ℕ → List ResponseMeta → Outcome (List Bytes)
slots stride output i [] = ok []
slots stride output i (m ∷ metas) =
    let rest = slots stride output (i + 1) metas in
    if m.flags != 0
    then err shader_failed
    else if m.output_len == 0 || ltb stride m.output_len
    then err invalid_response_length
    else (rest >>= λ responses. ok (take m.output_len (drop (i * stride) output) ∷ responses))

le_word-word_bytes :
    (w : ℕ) → le_word (w % 256) (w / 256 % 256) (w / 65536 % 256) (w / 16777216) ≡ w
le_word-word_bytes w = omega arith

words_of-cast_slice : (ws : List ℕ) → words_of (cast_slice ws) ≡ ws
unfolding words_of cast_slice
words_of-cast_slice [] = refl
words_of-cast_slice (w ∷ ws) = λ i. le_word-word_bytes w i ∷ words_of-cast_slice ws i

take-front : (xs ys : Bytes) (n : ℕ) → n ≡ length xs → take n (xs ++ ys) ≡ xs
take-front xs ys n h = ap (λ k. take k (xs ++ ys)) h ∙ take-append_left xs ys

read_meta-meta_words :
    (before : Bytes) (m : ResponseMeta) (metas : List ResponseMeta) (start : ℕ)
    → length before ≡ start
    → read_meta (before ++ cast_slice (meta_words (m ∷ metas))) start ≡ ok m
unfolding read_meta meta_of_words
read_meta-meta_words before m metas start at =
    let first = m.output_len ∷ m.status ∷ m.flags ∷ 0 ∷ [] in
    let rest = cast_slice (meta_words metas) in
    let bytes : cast_slice (meta_words (m ∷ metas)) ≡ cast_slice first ++ rest =
      cast_slice-append first (meta_words metas) in
    let whole = before ++ cast_slice first ++ rest in
    let long : start + 16 ≤ length whole = omega (
      arith,
      at,
      length-append before (cast_slice first),
      length-append (before ++ cast_slice first) rest,
      length-cast_slice first,
    ) in
    let cut : take (start + 16 - start) (drop start whole) ≡ cast_slice first =
      ap (λ k. take (start + 16 - start) (drop k whole)) (sym at)
      ∙ ap (λ t. take (start + 16 - start) t)
          (ap (drop (length before)) (append_assoc before (cast_slice first) rest)
            ∙ drop-append_left before (cast_slice first ++ rest))
      ∙ take-front (cast_slice first) rest (start + 16 - start)
          (omega (arith, length-cast_slice first)) in
    ap (λ t. read_meta t start)
      (ap (λ t. before ++ t) bytes ∙ sym (append_assoc before (cast_slice first) rest))
    ∙ ap (λ o. o >>= λ b. ok (meta_of_words (words_of b)))
        (slice-eq_ok whole start (start + 16) (omega arith) long)
    ∙ ap (λ t. ok (meta_of_words (words_of t))) cut
    ∙ ap (λ ws. ok (meta_of_words ws)) (words_of-cast_slice first)
    ∙ read_words m
  where
    read_words :
        (m : ResponseMeta) → ok (meta_of_words (m.output_len ∷ m.status ∷ m.flags ∷ 0 ∷ [])) ≡ ok m
    read_words m = refl

slot-take :
    (stride n : ℕ) (output : Bytes) (i : ℕ)
    → n ≤ stride
    → (i + 1) * stride ≤ length output
    → slice output (i * stride) (i * stride + n) ≡ ok (take n (drop (i * stride) output))
slot-take stride n output i small room =
    let next : (i + 1) * stride ≡ i * stride + stride = omega arith in
    slice-eq_ok output (i * stride) (i * stride + n) (omega arith)
      (omega (arith, next, room, small))
    ∙ ap (λ k. ok (take k (drop (i * stride) output)))
        (let e : i * stride + n - i * stride ≡ n = omega arith in e)

decode_one-slots :
    (stride : ℕ) (output : Bytes) (i : ℕ) (m : ResponseMeta) (rest : Outcome (List Bytes))
    → (i + 1) * stride ≤ length output
    → (decode_one stride output i m >>= λ response. rest >>= λ responses. ok (response ∷ responses))
      ≡ (if m.flags != 0
          then err shader_failed
          else if m.output_len == 0 || ltb stride m.output_len
          then err invalid_response_length
          else (rest >>= λ responses.
              ok (take m.output_len (drop (i * stride) output) ∷ responses)))
unfolding decode_one
decode_one-slots stride output i m rest room = elim (Bool-cases (m.flags != 0)) [
  | inl flagged ↦ rw (flagged, eq-flip m.flags true flagged) refl
  | inr clear ↦ elim (Bool-cases (m.output_len == 0 || ltb stride m.output_len)) [
    | inl outside ↦ rw (clear, eq-flip m.flags false clear, outside) refl
    | inr inside ↦
        let small : m.output_len ≤ stride = ground (arith, inside) in
        rw
          (
            clear,
            eq-flip m.flags false clear,
            inside,
            slot-take stride m.output_len output i small room,
          )
          refl
  ]
]
  where
    eq-flip : (n : ℕ) (b : Bool) → n != 0 ≡ b → n == 0 ≡ not b
    eq-flip n b h = ground (arith, h)

decode_from-slots :
    (stride : ℕ) (output before : Bytes) (metas : List ResponseMeta) (i : ℕ)
    → length before ≡ i * 16
    → (i + length metas) * stride ≤ length output
    → decode_from stride (before ++ cast_slice (meta_words metas)) output i (length metas)
      ≡ slots stride output i metas
unfolding decode_from
decode_from-slots stride output before [] i at room = refl
decode_from-slots stride output before (m ∷ metas) i at room =
    let first = m.output_len ∷ m.status ∷ m.flags ∷ 0 ∷ [] in
    let moved : i + suc (length metas) ≡ i + 1 + length metas = omega arith in
    let more : (i + 1 + length metas) * stride ≤ length output =
      omega (arith, ap (λ k. k * stride) moved, room) in
    let least : i + 1 ≤ i + 1 + length metas = omega arith in
    let here : (i + 1) * stride ≤ length output =
      omega (arith, mul-le-mul_right stride least, more) in
    let laid_out : before ++ cast_slice (meta_words (m ∷ metas))
        ≡ (before ++ cast_slice first) ++ cast_slice (meta_words metas) =
      ap (λ t. before ++ t) (cast_slice-append first (meta_words metas))
      ∙ sym (append_assoc before (cast_slice first) (cast_slice (meta_words metas))) in
    let later =
      ap (λ t. decode_from stride t output (i + 1) (length metas)) laid_out
      ∙ decode_from-slots stride output (before ++ cast_slice first) metas (i + 1)
          (omega (arith, at, length-append before (cast_slice first), length-cast_slice first))
          more in
    rw (read_meta-meta_words before m metas (i * 16) at, later)
      (decode_one-slots stride output i m (slots stride output (i + 1) metas) here)

-- For the metadata of `metas` in memory and an output of as many slots, `decode_responses` returns the
-- first `output_len` bytes of each slot, in order, or the error of the first request whose flags are
-- not 0 or whose length is 0 or beyond its slot; it does not panic.
pub decode_responses-slots :
    (response_stride_words : ℕ) (output : Bytes) (metas : List ResponseMeta)
    → length metas * (response_stride_words * 4) ≤ length output
    → decode_responses response_stride_words (length metas) (cast_slice (meta_words metas)) output
      ≡ slots (response_stride_words * 4) output 0 metas
unfolding decode_responses
decode_responses-slots response_stride_words output metas room =
    let from_start : 0 + length metas ≡ length metas = omega arith in
    decode_from-slots (response_stride_words * 4) output [] metas 0 (omega arith)
      (omega (arith, ap (λ k. k * (response_stride_words * 4)) from_start, room))
