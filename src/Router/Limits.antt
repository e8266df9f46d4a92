-- ===== src/Router/Limits.antt =====
-- The size that `RouterCompiler::compile` of src/router.rs computes for the largest response.

use gput.Base.{
  ℕ, ◌+◌, ◌*◌, ◌^◌, ◌≤◌, max, ◌≡◌, refl, List, [], ◌∷◌, ◌++◌, map, arith, ltb, length, replicate,
  All, Outcome, ok, err, panic, index, subst,
}
use gput.Base.Text.{codes}
use gput.Base.Yields
use gput.Base.Yields.{Yields, yields, fails, panics}
use gput.Base.{
  route_count_not_u32, route_table_overflow, response_size_not_u32, router_program_not_u32,
  response_header_overflow, response_size_overflow,
}
use gput.Router.Body.{Bytes}
use gput.Router.Decimal.{digit_count, decimal_digits-digit_count}
use gput.Router.Strings
use gput.Router.Strings.{StringTable}
use gput.Router.Segments.{CompiledResponse}
use gput.Router.Emit.{
  ShaderStringIds, add_string, maximum_response_bytes, emit_response, try_u32, route_stride_words,
}
use gput.Router.Compile.{
  crlf, header_tail_text, CompiledRoute, CompiledRouter, evaluated, fold_sizes, largest_response,
  finish_router,
}
use gput.Router.Interning.{Extends, index-Extends, IsTable}
use gput.Router.Compiling.{sum_of}
use gput.Router.Routes.{emit_routes-Extends}

-- The indices of the header's strings.
pub record AreNames (strings : List Bytes) (ids : ShaderStringIds) : Type 0 where
  pub version : index strings ids.http_version ≡ ok (codes "HTTP/1.1 ")
  pub content_type : index strings ids.header_content_type ≡ ok (crlf ++ codes "Content-Type: ")
  pub content_length :
      index strings ids.header_content_length ≡ ok (crlf ++ codes "Content-Length: ")
  pub tail : index strings ids.header_tail ≡ ok header_tail_text

pub AreNames-Extends :
    (strings extended : List Bytes) (ids : ShaderStringIds)
    → Extends strings extended
    → AreNames strings ids
    → AreNames extended ids
AreNames-Extends strings extended ids e n = record {
  version = index-Extends strings extended _ _ e n.version;
  content_type = index-Extends strings extended _ _ e n.content_type;
  content_length = index-Extends strings extended _ _ e n.content_length;
  tail = index-Extends strings extended _ _ e n.tail;
}

-- The response's size is computed, and is no more than the largest.
abbrev pub Within : StringTable → ShaderStringIds → ℕ → CompiledResponse → Type 0
Within table ids largest response =
    (k : ℕ) × (maximum_response_bytes table ids response ≡ ok k) × (k ≤ largest)

pub record Limited (c : CompiledRouter) : Type 0 where
  pub table : StringTable
  pub same : table.values ≡ c.strings
  pub names : AreNames table.values c.shader_string_ids
  pub routes_within :
      All
        (λ (r : CompiledRoute).
          Within table c.shader_string_ids c.max_gpu_response_bytes r.response)
        c.routes
  pub fallback_within : Within table c.shader_string_ids c.max_gpu_response_bytes c.fallback
  pub bad_request_within : Within table c.shader_string_ids c.max_gpu_response_bytes c.bad_request
  pub method_within : Within table c.shader_string_ids c.max_gpu_response_bytes c.method_not_allowed

abbrev pub Bounds : ℕ → Outcome ℕ → Type 0
Bounds largest o = (k : ℕ) × (o ≡ ok k) × (k ≤ largest)

fold_sizes-Bounds :
    (current : ℕ) (sizes : List (Outcome ℕ))
    → Yields (λ n. (current ≤ n) × All (Bounds n) sizes) (fold_sizes current sizes)
unfolding fold_sizes
fold_sizes-Bounds current [] = yields (omega arith, tt)
fold_sizes-Bounds current (ok k ∷ sizes) =
    Yields.mono (fold_sizes-Bounds (max current k) sizes)
      λ n h. (omega (arith, h.0), ((k, refl, omega (arith, h.0)), h.1))
fold_sizes-Bounds current (err e ∷ sizes) = fails
fold_sizes-Bounds current (panic ∷ sizes) = panics

evaluated-same : (m : Outcome ℕ) → Yields (λ o. o ≡ m) (evaluated m)
evaluated-same (ok n) = yields refl
evaluated-same (err e) = yields refl
evaluated-same panic = panics

All-map :
    (P : Outcome ℕ → Type 0) (f : CompiledRoute → Outcome ℕ) (routes : List CompiledRoute)
    (rest : List (Outcome ℕ))
    → All P (map f routes ++ rest)
    → All (λ r. P (f r)) routes × All P rest
All-map P f [] rest h = (tt, h)
All-map P f (r ∷ routes) rest h = let both = All-map P f routes rest h.1 in ((h.0, both.0), both.1)

largest_response-Within :
    (table : StringTable) (ids : ShaderStringIds) (routes : List CompiledRoute)
    (f b m : CompiledResponse)
    → Yields
        (λ n.
          All (λ (r : CompiledRoute). Within table ids n r.response) routes
          × (Within table ids n f × (Within table ids n b × Within table ids n m)))
        (largest_response table ids routes f b m)
unfolding largest_response
largest_response-Within table ids routes f b m =
    Yields.bind (evaluated-same (maximum_response_bytes table ids f)) λ s₁ e₁.
      Yields.bind (evaluated-same (maximum_response_bytes table ids b)) λ s₂ e₂.
        Yields.bind (evaluated-same (maximum_response_bytes table ids m)) λ s₃ e₃.
          Yields.mono (fold_sizes-Bounds 0 _) λ n h.
            let parts =
              All-map (Bounds n) (λ r. maximum_response_bytes table ids (CompiledRoute.response r))
                routes (s₁ ∷ s₂ ∷ s₃ ∷ []) h.1 in
            (
              parts.0,
              (
                subst (Bounds n) e₁ parts.1.0,
                (subst (Bounds n) e₂ parts.1.1.0, subst (Bounds n) e₃ parts.1.1.1.0),
              ),
            )

pub finish_router-Limited :
    (ids : ShaderStringIds) (table : StringTable) (routes : List CompiledRoute)
    (f b m : CompiledResponse)
    → IsTable table
    → AreNames table.values ids
    → Yields Limited (finish_router ids table routes f b m)
unfolding finish_router
finish_router-Limited ids table routes f b m h names =
    Yields.bind
      (Yields.ensured (ltb (length routes * route_stride_words) (2 ^ 64)) route_table_overflow)
      λ _ _.
        Yields.bind
          (emit_routes-Extends 0 (replicate (length routes * route_stride_words) 0) table routes h)
          λ emitted e. Yields.bind (Yields.it (emit_response emitted.0 f)) λ e₁ _.
            Yields.bind (Yields.it (emit_response e₁.1 b)) λ e₂ _.
              Yields.bind (Yields.it (emit_response e₂.1 m)) λ e₃ _.
                Yields.bind (largest_response-Within emitted.1 ids routes f b m) λ largest w.
                  Yields.bind (Yields.ensured (ltb largest (2 ^ 32)) response_size_not_u32) λ _ _.
                    Yields.bind (Yields.ensured (ltb (length e₃.1) (2 ^ 32)) router_program_not_u32)
                      λ _ _.
                        Yields.bind (Yields.it (try_u32 (length routes) route_count_not_u32))
                          λ count _. yields (record {
                            table = emitted.1;
                            same = refl;
                            names = AreNames-Extends _ _ ids e names;
                            routes_within = w.0;
                            fallback_within = w.1.0;
                            bad_request_within = w.1.1.0;
                            method_within = w.1.1.1;
                          })

-- A string of the table is counted with its length.
add_string-sum :
    (table : StringTable) (bytes id : ℕ) (value : Bytes)
    → index table.values id ≡ ok value
    → Yields (λ sum. sum ≡ bytes + length value) (add_string table bytes id)
unfolding gput.Router.Strings.get
add_string-sum table bytes id value h = rw h (sum_of bytes (length value) response_header_overflow)

-- What the sum is made of: 102 bytes that every header has, and the parts that differ.
pub maximum_response_bytes-sum :
    (table : StringTable) (ids : ShaderStringIds) (c : CompiledResponse)
    (reason content_type : Bytes)
    → AreNames table.values ids
    → index table.values c.reason_string_id ≡ ok reason
    → index table.values c.content_type_string_id ≡ ok content_type
    → Yields
        (λ k.
          k
          ≡ 102
            + digit_count c.status
            + length reason
            + length content_type
            + digit_count c.max_gpu_body_bytes
            + c.max_gpu_body_bytes)
        (maximum_response_bytes table ids c)
unfolding maximum_response_bytes gput.Router.Strings.get
maximum_response_bytes-sum table ids c reason content_type names h k =
    rw
      (
        names.version,
        decimal_digits-digit_count c.status,
        decimal_digits-digit_count c.max_gpu_body_bytes,
      )
      (Yields.bind (sum_of 9 (digit_count c.status) response_header_overflow) λ b₁ s₁.
        Yields.bind (sum_of b₁ 1 response_header_overflow) λ b₂ s₂.
          Yields.bind (add_string-sum table b₂ _ reason h) λ b₃ s₃.
            Yields.bind (add_string-sum table b₃ _ _ names.content_type) λ b₄ s₄.
              Yields.bind (add_string-sum table b₄ _ content_type k) λ b₅ s₅.
                Yields.bind (add_string-sum table b₅ _ _ names.content_length) λ b₆ s₆.
                  Yields.bind
                    (sum_of b₆ (digit_count c.max_gpu_body_bytes) response_header_overflow)
                    λ b₇ s₇. Yields.bind (add_string-sum table b₇ _ _ names.tail) λ b₈ s₈.
                      Yields.mono (sum_of b₈ c.max_gpu_body_bytes response_size_overflow)
                        λ n s₉. omega (arith, s₁, s₂, s₃, s₄, s₅, s₆, s₇, s₈, s₉))
