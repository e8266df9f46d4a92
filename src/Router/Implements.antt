-- ===== src/Router/Implements.antt =====
-- What it means that a compiled response of src/router.rs stands for a response, and that it is then
-- rendered as the response says.
use mathlib.Core.List.{append_assoc, append-nil}
use gput.Base.{
  ◌<◌, ◌≤◌, ◌^◌, ℕ, zero, suc, ◌-◌, min, ◌≡◌, inl, inr, refl, sym, ap, ◌∙◌, List, [], ◌∷◌, ◌++◌,
  arith, length, take, ok, ◌>>=◌, index, slice, Bool-cases, slice-eq_ok,
}
use gput.Base.Text.{bytes_eq}
use gput.Router.Body.{
  Bytes, BodySegment, literal_segment, path_segment, query_segment, backend_segment,
  request_bytes_segment, path_hash_segment, variant_segment, Response,
}
use gput.Router.Segments.{
  CompiledSegment, literal_id, path_limit, query_limit, backend_name, request_length, hash_of_path,
  variant_ids, CompiledResponse,
}
use gput.Router.Request.{RequestParts}
use gput.Router.Compile.{CompiledRouter}
use gput.Router.Serve.{gpu_name, string, render_segment, render_body, render_response}
use gput.Router.Interning.{Extends, index-Extends}
use gput.Router.Meaning.{segment_bytes, body_bytes, response_bytes}

-- The segment, with each string behind its index.
pub data Stands (strings : List Bytes) : CompiledSegment → BodySegment → Type 0 where
  literal :
      {id : ℕ} {value : Bytes}
      → index strings id ≡ ok value
      → Stands strings (literal_id id) (literal_segment value)
  path : (limit : ℕ) → Stands strings (path_limit limit) (path_segment limit)
  query : (limit : ℕ) → Stands strings (query_limit limit) (query_segment limit)
  backend : Stands strings backend_name backend_segment
  request_bytes : Stands strings request_length request_bytes_segment
  path_hash : Stands strings hash_of_path path_hash_segment
  variant :
      {cpu_id gpu_id : ℕ} {cpu gpu : Bytes}
      → index strings cpu_id ≡ ok cpu
      → index strings gpu_id ≡ ok gpu
      → Stands strings (variant_ids cpu_id gpu_id) (variant_segment cpu gpu)

pub data StandsAll (strings : List Bytes) : List CompiledSegment → List BodySegment → Type 0 where
  none_left : StandsAll strings [] []
  one_more :
      {c : CompiledSegment} {s : BodySegment} {cs : List CompiledSegment} {ss : List BodySegment}
      → Stands strings c s
      → StandsAll strings cs ss
      → StandsAll strings (c ∷ cs) (s ∷ ss)

-- What the router puts into a body has numbers of 32 bits.
pub record IsSmall (parts : RequestParts) (request_len : ℕ) : Type 0 where
  pub small_hash : parts.path_hash < 2 ^ 32
  pub small_len : request_len < 2 ^ 32

-- On a GPU, no body of the segments is longer.
abbrev pub FitsBody : List BodySegment → ℕ → Type 0
FitsBody segments bytes =
    (parts : RequestParts) (request_len : ℕ)
    → IsSmall parts request_len
    → length (body_bytes parts request_len gpu_name segments) ≤ bytes

pub record StandsFor (strings : List Bytes) (compiled : CompiledResponse) (response : Response)
    : Type 0 where
  pub same_status : compiled.status ≡ response.status.code
  pub reason : index strings compiled.reason_string_id ≡ ok response.status.reason
  pub content_type : index strings compiled.content_type_string_id ≡ ok response.content_type
  pub segments : StandsAll strings compiled.segments response.body.segments
  pub body_bound : FitsBody response.body.segments compiled.max_gpu_body_bytes

module _ (strings extended : List Bytes) (e : Extends strings extended) where
  pub Stands-Extends :
      (c : CompiledSegment) (s : BodySegment) → Stands strings c s → Stands extended c s
  Stands-Extends c s (Stands.literal h) = Stands.literal (index-Extends strings extended _ _ e h)
  Stands-Extends c s (Stands.path limit) = Stands.path limit
  Stands-Extends c s (Stands.query limit) = Stands.query limit
  Stands-Extends c s Stands.backend = Stands.backend
  Stands-Extends c s Stands.request_bytes = Stands.request_bytes
  Stands-Extends c s Stands.path_hash = Stands.path_hash
  Stands-Extends c s (Stands.variant h k) =
      Stands.variant (index-Extends strings extended _ _ e h)
        (index-Extends strings extended _ _ e k)

  pub StandsAll-Extends :
      (cs : List CompiledSegment) (ss : List BodySegment)
      → StandsAll strings cs ss
      → StandsAll extended cs ss
  StandsAll-Extends cs ss none_left = none_left
  StandsAll-Extends cs ss (one_more h hs) =
      one_more (Stands-Extends _ _ h) (StandsAll-Extends _ _ hs)

  pub StandsFor-Extends :
      (c : CompiledResponse) (r : Response) → StandsFor strings c r → StandsFor extended c r
  StandsFor-Extends c r h = record {
    same_status = h.same_status;
    reason = index-Extends strings extended _ _ e h.reason;
    content_type = index-Extends strings extended _ _ e h.content_type;
    segments = StandsAll-Extends _ _ h.segments;
    body_bound = h.body_bound;
  }

pub StandsAll-append :
    (strings : List Bytes) (cs : List CompiledSegment) (ss : List BodySegment) (c : CompiledSegment)
    (s : BodySegment)
    → StandsAll strings cs ss
    → Stands strings c s
    → StandsAll strings (cs ++ c ∷ []) (ss ++ s ∷ [])
StandsAll-append strings cs ss c s none_left k = one_more k none_left
StandsAll-append strings cs ss c s (one_more h hs) k =
    one_more h (StandsAll-append strings _ _ c s hs k)

take-min : (n : ℕ) (xs : Bytes) → take (min (length xs) n) xs ≡ take n xs
take-min zero xs = ap (λ k. take k xs) (let e : min (length xs) 0 ≡ 0 = omega arith in e)
take-min (suc n) [] = ap (λ k. take k []) (let e : min 0 (suc n) ≡ 0 = omega arith in e)
take-min (suc n) (x ∷ xs) =
    ap (λ k. take k (x ∷ xs))
      (let e : min (suc (length xs)) (suc n) ≡ suc (min (length xs) n) = omega arith in e)
    ∙ ap (λ t. x ∷ t) (take-min n xs)

slice_limit : (xs : Bytes) (n : ℕ) → slice xs 0 (min (length xs) n) ≡ ok (take n xs)
slice_limit xs n =
    slice-eq_ok xs 0 (min (length xs) n) (omega arith) (omega arith)
    ∙ ap (λ t. ok t)
        (ap (λ k. take k xs) (let e : min (length xs) n - 0 ≡ min (length xs) n = omega arith in e)
          ∙ take-min n xs)

module _ (router : CompiledRouter) (parts : RequestParts) (n : ℕ) (name : Bytes) where
  render_segment-Stands :
      (c : CompiledSegment) (s : BodySegment)
      → Stands router.strings c s
      → render_segment router parts n name c ≡ ok (segment_bytes parts n name s)
  unfolding render_segment string
  render_segment-Stands c s (Stands.literal h) = h
  render_segment-Stands c s (Stands.path limit) = slice_limit parts.path limit
  render_segment-Stands c s (Stands.query limit) = slice_limit parts.query limit
  render_segment-Stands c s Stands.backend = refl
  render_segment-Stands c s Stands.request_bytes = refl
  render_segment-Stands c s Stands.path_hash = refl
  render_segment-Stands c s (Stands.variant h k) = elim (Bool-cases (bytes_eq name gpu_name)) [
    | inl e ↦ rw e k
    | inr e ↦ rw e h
  ]

  render_body-StandsAll :
      (body : Bytes) (cs : List CompiledSegment) (ss : List BodySegment)
      → StandsAll router.strings cs ss
      → render_body router parts n name body cs ≡ ok (body ++ body_bytes parts n name ss)
  unfolding render_body
  render_body-StandsAll body cs ss none_left = ap (λ t. ok t) (sym (append-nil body))
  render_body-StandsAll body cs ss (one_more {c = c₁} {s = s₁} {cs = cs₁} {ss = ss₁} h hs) =
      ap (λ m. m >>= λ bytes. render_body router parts n name (body ++ bytes) cs₁)
        (render_segment-Stands c₁ s₁ h)
      ∙ render_body-StandsAll (body ++ segment_bytes parts n name s₁) cs₁ ss₁ hs
      ∙ ap (λ t. ok t)
          (append_assoc body (segment_bytes parts n name s₁) (body_bytes parts n name ss₁))

  pub render_response-StandsFor :
      (c : CompiledResponse) (r : Response)
      → StandsFor router.strings c r
      → render_response router c parts n name ≡ ok (response_bytes parts n name r)
  unfolding render_response string
  render_response-StandsFor c r h =
      rw (render_body-StandsAll [] _ _ h.segments, h.reason, h.content_type, h.same_status) refl
