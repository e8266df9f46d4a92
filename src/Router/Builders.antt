-- ===== src/Router/Builders.antt =====
-- Body programs as the calls of `Body` in src/router.rs build them.
use mathlib.Core.List.{append_assoc, append-nil}
use gput.Base.{
  ℕ, zero, suc, ◌≡◌, inl, inr, refl, sym, ap, ◌∙◌, Bool, true, false, List, [], ◌∷◌, ◌++◌, map,
  arith, if◌then◌else◌, Bool-cases, ne→!=,
}
use gput.Base.Text.{bytes_eq, bytes_eq_iff}
use gput.Router.Body.{
  Bytes, BodySegment, literal_segment, path_segment, query_segment, backend_segment,
  request_bytes_segment, path_hash_segment, variant_segment, Body, extend_last, append_literal,
  literal, path, query, backend, request_bytes, path_hash, backend_variant,
}
use gput.Router.Request.{RequestParts}
use gput.Router.Serve.{gpu_name}
use gput.Router.Meaning.{segment_bytes, body_bytes}

-- A call of a builder's method.
pub data Call : Type 0 where
  call_literal : Bytes → Call
  call_path call_query : ℕ → Call
  call_backend call_request_bytes call_path_hash : Call
  call_variant : Bytes → Bytes → Call

abbrev pub apply_call : Body → Call → Body
apply_call body (call_literal t) = literal body t
apply_call body (call_path max_bytes) = path body max_bytes
apply_call body (call_query max_bytes) = query body max_bytes
apply_call body call_backend = backend body
apply_call body call_request_bytes = request_bytes body
apply_call body call_path_hash = path_hash body
apply_call body (call_variant cpu gpu) = backend_variant body cpu gpu

abbrev pub build : Body → List Call → Body
build body [] = body
build body (call ∷ calls) = build (apply_call body call) calls

-- What a call is meant to add to the response's body.
abbrev pub call_segment : Call → BodySegment
call_segment (call_literal t) = literal_segment t
call_segment (call_path max_bytes) = path_segment max_bytes
call_segment (call_query max_bytes) = query_segment max_bytes
call_segment call_backend = backend_segment
call_segment call_request_bytes = request_bytes_segment
call_segment call_path_hash = path_hash_segment
call_segment (call_variant cpu gpu) = variant_segment cpu gpu

module _ (parts : RequestParts) (n : ℕ) (name : Bytes) where
  pub body_bytes-push :
      (ss : List BodySegment) (s : BodySegment)
      → body_bytes parts n name (ss ++ s ∷ [])
        ≡ body_bytes parts n name ss ++ segment_bytes parts n name s
  body_bytes-push [] s = append-nil (segment_bytes parts n name s)
  body_bytes-push (r ∷ ss) s =
      ap (λ t. segment_bytes parts n name r ++ t) (body_bytes-push ss s)
      ∙ sym (
          append_assoc (segment_bytes parts n name r) (body_bytes parts n name ss)
            (segment_bytes parts n name s))

  body_bytes-extend_last :
      (s : BodySegment) (t : Bytes)
      → body_bytes parts n name (extend_last s t) ≡ body_bytes parts n name (s ∷ []) ++ t
  unfolding extend_last
  body_bytes-extend_last (literal_segment v) t =
      append-nil (v ++ t) ∙ ap (λ u. u ++ t) (sym (append-nil v))
  body_bytes-extend_last (path_segment m) t =
      body_bytes-push (path_segment m ∷ []) (literal_segment t)
  body_bytes-extend_last (query_segment m) t =
      body_bytes-push (query_segment m ∷ []) (literal_segment t)
  body_bytes-extend_last backend_segment t =
      body_bytes-push (backend_segment ∷ []) (literal_segment t)
  body_bytes-extend_last request_bytes_segment t =
      body_bytes-push (request_bytes_segment ∷ []) (literal_segment t)
  body_bytes-extend_last path_hash_segment t =
      body_bytes-push (path_hash_segment ∷ []) (literal_segment t)
  body_bytes-extend_last (variant_segment c g) t =
      body_bytes-push (variant_segment c g ∷ []) (literal_segment t)

  body_bytes-append_literal :
      (ss : List BodySegment) (t : Bytes)
      → body_bytes parts n name (append_literal ss t) ≡ body_bytes parts n name ss ++ t
  unfolding append_literal
  body_bytes-append_literal [] t = append-nil t
  body_bytes-append_literal (s ∷ []) t = body_bytes-extend_last s t
  body_bytes-append_literal (s ∷ r ∷ ss) t =
      ap (λ u. segment_bytes parts n name s ++ u) (body_bytes-append_literal (r ∷ ss) t)
      ∙ sym (append_assoc (segment_bytes parts n name s) (body_bytes parts n name (r ∷ ss)) t)

  body_bytes-literal :
      (body : Body) (t : Bytes)
      → body_bytes parts n name (literal body t).segments
        ≡ body_bytes parts n name body.segments ++ t
  unfolding literal
  body_bytes-literal body [] = sym (append-nil (body_bytes parts n name body.segments))
  body_bytes-literal body (x ∷ t) = body_bytes-append_literal body.segments (x ∷ t)

  body_bytes-apply_call :
      (body : Body) (call : Call)
      → body_bytes parts n name (apply_call body call).segments
        ≡ body_bytes parts n name body.segments ++ segment_bytes parts n name (call_segment call)
  unfolding path query backend request_bytes path_hash backend_variant
  body_bytes-apply_call body (call_literal t) = body_bytes-literal body t
  body_bytes-apply_call body (call_path zero) =
      sym (append-nil (body_bytes parts n name body.segments))
  body_bytes-apply_call body (call_path (suc m)) =
      rw (ne→!= (suc m) 0 (omega arith)) (body_bytes-push body.segments (path_segment (suc m)))
  body_bytes-apply_call body (call_query zero) =
      sym (append-nil (body_bytes parts n name body.segments))
  body_bytes-apply_call body (call_query (suc m)) =
      rw (ne→!= (suc m) 0 (omega arith)) (body_bytes-push body.segments (query_segment (suc m)))
  body_bytes-apply_call body call_backend = body_bytes-push body.segments backend_segment
  body_bytes-apply_call body call_request_bytes =
      body_bytes-push body.segments request_bytes_segment
  body_bytes-apply_call body call_path_hash = body_bytes-push body.segments path_hash_segment
  body_bytes-apply_call body (call_variant cpu gpu) = elim (Bool-cases (bytes_eq cpu gpu)) [
    | inl same ↦
        let one : (if bytes_eq name gpu_name then gpu else cpu) ≡ cpu =
          variant_same (bytes_eq name gpu_name) cpu gpu ((bytes_eq_iff cpu gpu).0 same) in
        rw (same, one) (body_bytes-literal body cpu)
    | inr differ ↦ rw differ (body_bytes-push body.segments (variant_segment cpu gpu))
  ]
    where
      variant_same : (b : Bool) (cpu gpu : Bytes) → cpu ≡ gpu → (if b then gpu else cpu) ≡ cpu
      variant_same true cpu gpu h = sym h
      variant_same false cpu gpu h = refl

  -- A body that any calls build is rendered to what the calls say, in their order.
  pub body_bytes-build :
      (body : Body) (calls : List Call)
      → body_bytes parts n name (build body calls).segments
        ≡ body_bytes parts n name body.segments ++ body_bytes parts n name (map call_segment calls)
  body_bytes-build body [] = sym (append-nil (body_bytes parts n name body.segments))
  body_bytes-build body (call ∷ calls) =
      body_bytes-build (apply_call body call) calls
      ∙ ap (λ t. t ++ body_bytes parts n name (map call_segment calls))
          (body_bytes-apply_call body call)
      ∙ append_assoc (body_bytes parts n name body.segments)
          (segment_bytes parts n name (call_segment call))
          (body_bytes parts n name (map call_segment calls))
