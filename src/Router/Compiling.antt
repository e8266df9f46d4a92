-- ===== src/Router/Compiling.antt =====
-- `compile_response` of src/router.rs keeps what the source says, each string behind its index.
use mathlib.Core.List.{append_assoc, append-nil}
use gput.Base.{
  ℕ, ◌+◌, ◌^◌, ◌≡◌, refl, sym, ap, inl, inr, List, [], ◌∷◌, ◌++◌, subst, arith, length, take,
  length-append, length-take, ltb, Bool-cases, Error,
}
use gput.Base.Yields
use gput.Base.Yields.{Yields, yields, fails}
use gput.Base.{body_size_overflow}
use gput.Router.Body.{
  Bytes, BodySegment, literal_segment, path_segment, query_segment, backend_segment,
  request_bytes_segment, path_hash_segment, variant_segment, Response,
}
use gput.Router.Strings.{StringTable}
use gput.Router.Segments.{
  CompiledSegment, path_limit, query_limit, CompiledResponse, Compiling, push_compiled,
  compile_segment, compile_segments, compile_response, checked_add, validate_dynamic_limit,
  validate_status, validate_header_value,
}
use gput.Router.Interning.{
  Extends, Extends-refl, Extends-trans, index-Extends, IsTable, Interned, intern-Interned, reads,
  grows, is_table,
}
use gput.Router.Decimal.{decimal, length-decimal_u32}
use gput.Router.Serve.{gpu_name}
use gput.Router.Meaning.{segment_bytes, body_bytes}
use gput.Router.Builders.{body_bytes-push}
use gput.Router.Implements.{
  FitsBody, Stands, StandsAll, StandsFor, none_left, StandsAll-append, StandsAll-Extends,
}

-- What the loop over the segments keeps, from the segments `done` on.
pub record Holds (start : List Bytes) (done : List BodySegment) (state : Compiling) : Type 0 where
  pub valid : IsTable state.strings
  pub grown : Extends start state.strings.values
  pub stand : StandsAll state.strings.values state.segments done
  pub bound : FitsBody done state.max_gpu_body_bytes

pub sum_of :
    (current value : ℕ) (e : Error)
    → Yields (λ sum. sum ≡ current + value) (checked_add current value e)
unfolding checked_add
sum_of current value e = elim (Bool-cases (ltb (current + value) (2 ^ 64))) [
  | inl fits ↦ rw (fits, checked_add) (yields refl)
  | inr large ↦ rw (large, checked_add) fails
]

FitsBody-push :
    (done : List BodySegment) (s : BodySegment) (bytes more sum : ℕ)
    → FitsBody done bytes
    → FitsBody (s ∷ []) more
    → sum ≡ bytes + more
    → FitsBody (done ++ s ∷ []) sum
FitsBody-push done s bytes more sum h k is parts n small =
    let whole = ap length (body_bytes-push parts n gpu_name done s) in
    let one = ap length (append-nil (segment_bytes parts n gpu_name s)) in
    omega (
      arith,
      whole,
      length-append (body_bytes parts n gpu_name done) (segment_bytes parts n gpu_name s),
      one,
      h parts n small,
      k parts n small,
      is,
    )

-- What each segment adds is no more than what is counted for it.
literal-FitsBody : (value : Bytes) → FitsBody (literal_segment value ∷ []) (length value)
literal-FitsBody value parts n small = omega (arith, ap length (append-nil value))

path-FitsBody : (limit : ℕ) → FitsBody (path_segment limit ∷ []) limit
path-FitsBody limit parts n small =
    omega (arith, ap length (append-nil (take limit parts.path)), length-take limit parts.path)

query-FitsBody : (limit : ℕ) → FitsBody (query_segment limit ∷ []) limit
query-FitsBody limit parts n small =
    omega (arith, ap length (append-nil (take limit parts.query)), length-take limit parts.query)

request_bytes-FitsBody : FitsBody (request_bytes_segment ∷ []) 10
request_bytes-FitsBody parts n small =
    omega (arith, ap length (append-nil (decimal n)), length-decimal_u32 n small.small_len)

path_hash-FitsBody : FitsBody (path_hash_segment ∷ []) 10
path_hash-FitsBody parts n small = omega (
  arith,
  ap length (append-nil (decimal parts.path_hash)),
  length-decimal_u32 parts.path_hash small.small_hash,
)

backend-FitsBody : FitsBody (backend_segment ∷ []) 3
backend-FitsBody parts n small = omega arith

variant-FitsBody : (cpu gpu : Bytes) → FitsBody (variant_segment cpu gpu ∷ []) (length gpu)
variant-FitsBody cpu gpu parts n small = omega (arith, ap length (append-nil gpu))

push_compiled-Holds :
    {start : List Bytes} {done : List BodySegment} {state : Compiling} {c : CompiledSegment}
    {s : BodySegment} (gpu_bytes cpu_bytes : ℕ)
    → Holds start done state
    → Stands state.strings.values c s
    → FitsBody (s ∷ []) gpu_bytes
    → Yields (Holds start (done ++ s ∷ [])) (push_compiled state c gpu_bytes cpu_bytes)
unfolding push_compiled
push_compiled-Holds {start} {done} {state} {c} {s} gpu_bytes cpu_bytes k h fits =
    Yields.bind (sum_of state.max_gpu_body_bytes gpu_bytes body_size_overflow) λ gpu is.
      Yields.bind (Yields.it (checked_add state.max_cpu_body_bytes cpu_bytes body_size_overflow))
        λ cpu _. yields (record {
          valid = k.valid;
          grown = k.grown;
          stand = StandsAll-append state.strings.values state.segments done c s k.stand h;
          bound = FitsBody-push done s state.max_gpu_body_bytes gpu_bytes gpu k.bound fits is;
        })

-- The state with a later table.
with_strings-Holds :
    {start : List Bytes} {done : List BodySegment} {state : Compiling} {value : Bytes} {id : ℕ}
    {table : StringTable}
    → Holds start done state
    → Interned state.strings value id table
    → Holds start done (record state { strings = table })
with_strings-Holds {start} {done} {state} {table} k i = record {
  valid = is_table i;
  grown = Extends-trans start state.strings.values table.values k.grown (grows i);
  stand = StandsAll-Extends state.strings.values table.values (grows i) state.segments done k.stand;
  bound = k.bound;
}

the_limit : (n : ℕ) → Yields (λ m. m ≡ n) (validate_dynamic_limit n)
unfolding validate_dynamic_limit
the_limit n = Yields.bind (Yields.ensured _ _) λ _ _. yields refl

compile_segment-Holds :
    {start : List Bytes} {done : List BodySegment} (state : Compiling) (s : BodySegment)
    → Holds start done state
    → Yields (Holds start (done ++ s ∷ [])) (compile_segment state s)
unfolding compile_segment
compile_segment-Holds state (literal_segment value) h =
    Yields.bind (intern-Interned state.strings value h.valid) λ found i.
      push_compiled-Holds _ _ (with_strings-Holds h i) (Stands.literal (reads i))
        (literal-FitsBody value)
compile_segment-Holds {start} {done} state (path_segment max_bytes) h =
    Yields.bind (the_limit max_bytes) λ limit same.
      subst
        (λ m.
          Yields (Holds start (done ++ path_segment m ∷ []))
            (push_compiled state (path_limit limit) limit limit))
        same (push_compiled-Holds _ _ h (Stands.path limit) (path-FitsBody limit))
compile_segment-Holds {start} {done} state (query_segment max_bytes) h =
    Yields.bind (the_limit max_bytes) λ limit same.
      subst
        (λ m.
          Yields (Holds start (done ++ query_segment m ∷ []))
            (push_compiled state (query_limit limit) limit limit))
        same (push_compiled-Holds _ _ h (Stands.query limit) (query-FitsBody limit))
compile_segment-Holds state backend_segment h =
    push_compiled-Holds _ _ h Stands.backend backend-FitsBody
compile_segment-Holds state request_bytes_segment h =
    push_compiled-Holds _ _ h Stands.request_bytes request_bytes-FitsBody
compile_segment-Holds state path_hash_segment h =
    push_compiled-Holds _ _ h Stands.path_hash path_hash-FitsBody
compile_segment-Holds state (variant_segment cpu gpu) h =
    Yields.bind (intern-Interned state.strings cpu h.valid) λ c i.
      Yields.bind (intern-Interned c.1 gpu (is_table i)) λ g j.
        push_compiled-Holds _ _ (with_strings-Holds (with_strings-Holds h i) j)
          (Stands.variant (index-Extends _ _ _ _ (grows j) (reads i)) (reads j))
          (variant-FitsBody cpu gpu)

pub compile_segments-Holds :
    {start : List Bytes} {done : List BodySegment} (state : Compiling) (ss : List BodySegment)
    → Holds start done state
    → Yields (Holds start (done ++ ss)) (compile_segments state ss)
unfolding compile_segments
compile_segments-Holds {start} {done} state [] h =
    yields (subst (λ d. Holds start d state) (sym (append-nil done)) h)
compile_segments-Holds {start} {done} state (s ∷ ss) h =
    Yields.bind (compile_segment-Holds state s h) λ next k.
      subst (λ d. Yields (Holds start d) (compile_segments next ss)) (append_assoc done (s ∷ []) ss)
        (compile_segments-Holds next ss k)

-- A compiled response stands for its source in the table that compiling leaves, which has the old
-- strings where they were.
pub record Compiled (table : StringTable) (response : Response)
    (out : CompiledResponse × StringTable) : Type 0 where
  pub valid : IsTable out.1
  pub grown : Extends table.values out.1.values
  pub stands : StandsFor out.1.values out.0 response

pub compile_response-Compiled :
    (table : StringTable) (response : Response)
    → IsTable table
    → Yields (Compiled table response) (compile_response table response)
unfolding compile_response
compile_response-Compiled table response h =
    Yields.bind (Yields.it (validate_status response.status)) λ _ _.
      Yields.bind (Yields.it (validate_header_value response.content_type)) λ _ _.
        Yields.bind (intern-Interned table response.status.reason h) λ reason i.
          Yields.bind (intern-Interned reason.1 response.content_type (is_table i)) λ content j.
            Yields.bind
              (compile_segments-Holds _ response.body.segments (record {
                valid = is_table j;
                grown = Extends-refl content.1.values;
                stand = none_left;
                bound = λ parts n small. omega arith;
              }))
              λ done k.
                let late = Extends-trans _ _ _ (grows j) k.grown in
                yields (record {
                  valid = k.valid;
                  grown = Extends-trans _ _ _ (grows i) late;
                  stands = record {
                    same_status = refl;
                    reason = index-Extends _ _ _ _ late (reads i);
                    content_type = index-Extends _ _ _ _ k.grown (reads j);
                    segments = k.stand;
                    body_bound = k.bound;
                  };
                })
