-- ===== src/Router/Merged.antt =====
-- The segments that the calls of `Body` in src/router.rs leave: none is empty, and literals are merged.

use gput.Base.{
  ℕ, ◌≡◌, inl, inr, refl, ap, Bool, true, false, not, ◌&&◌, List, [], ◌∷◌, ◌++◌, ◌!=◌, Bool-cases,
}
use gput.Base.Text.{bytes_eq}
use gput.Router.Body.{
  Bytes, BodySegment, literal_segment, path_segment, query_segment, backend_segment,
  request_bytes_segment, path_hash_segment, variant_segment, Body, extend_last, append_literal,
  is_empty, literal, path, query, backend, request_bytes, path_hash, backend_variant,
}
use gput.Router.Builders.{
  Call, call_literal, call_path, call_query, call_backend, call_request_bytes, call_path_hash,
  call_variant, apply_call, build,
}

-- No segment adds nothing, and no literal follows a literal.
abbrev pub adds_bytes : BodySegment → Bool
adds_bytes (literal_segment t) = not (is_empty t)
adds_bytes (path_segment max_bytes) = max_bytes != 0
adds_bytes (query_segment max_bytes) = max_bytes != 0
adds_bytes (variant_segment cpu gpu) = not (bytes_eq cpu gpu)
adds_bytes backend_segment = true
adds_bytes request_bytes_segment = true
adds_bytes path_hash_segment = true

abbrev pub is_literal : BodySegment → Bool
is_literal (literal_segment t) = true
is_literal _ = false

abbrev pub both_literal : BodySegment → List BodySegment → Bool
both_literal s [] = false
both_literal s (t ∷ ss) = is_literal s && is_literal t

abbrev pub is_merged : List BodySegment → Bool
is_merged [] = true
is_merged (s ∷ ss) = adds_bytes s && not (both_literal s ss) && is_merged ss

and_first : (a b c : Bool) → a && b && c ≡ true → a ≡ true
and_first true b c h = refl
and_first false b c h = cc

and_not-false :
    (a b : Bool) → a && true && true ≡ true → a && not (b && false) && (true && true && true) ≡ true
and_not-false true true h = refl
and_not-false true false h = refl
and_not-false false b h = cc

and_replace : (a b c d : Bool) → a && b && c ≡ true → (c ≡ true → d ≡ true) → a && b && d ≡ true
and_replace true true c d h f = f h
and_replace true false c d h f = cc
and_replace false b c d h f = cc

-- The tests hold of a list with one more segment at its end.
is_merged-push :
    (ss : List BodySegment) (s : BodySegment)
    → is_literal s ≡ false
    → adds_bytes s ≡ true
    → is_merged ss ≡ true
    → is_merged (ss ++ s ∷ []) ≡ true
is_merged-push [] s other adds h = rw adds refl
is_merged-push (r ∷ []) s other adds h =
    rw (other, adds) (and_not-false (adds_bytes r) (is_literal r) h)
is_merged-push (r ∷ q ∷ ss) s other adds h =
    and_replace (adds_bytes r) (not (is_literal r && is_literal q)) (is_merged (q ∷ ss))
      (is_merged ((q ∷ ss) ++ s ∷ [])) h (is_merged-push (q ∷ ss) s other adds)

is_merged-extend_last :
    (s : BodySegment) (x : ℕ) (t : Bytes)
    → adds_bytes s ≡ true
    → is_merged (extend_last s (x ∷ t)) ≡ true
unfolding extend_last
is_merged-extend_last (literal_segment (y ∷ v)) x t h = refl
is_merged-extend_last (literal_segment []) x t h = cc
is_merged-extend_last (path_segment m) x t h = rw h refl
is_merged-extend_last (query_segment m) x t h = rw h refl
is_merged-extend_last backend_segment x t h = refl
is_merged-extend_last request_bytes_segment x t h = refl
is_merged-extend_last path_hash_segment x t h = refl
is_merged-extend_last (variant_segment c g) x t h = rw h refl

both_literal-append_literal :
    (s r : BodySegment) (ss : List BodySegment) (t : Bytes)
    → both_literal s (append_literal (r ∷ ss) t) ≡ is_literal s && is_literal r
unfolding append_literal extend_last
both_literal-append_literal s (literal_segment v) [] t = refl
both_literal-append_literal s (path_segment m) [] t = refl
both_literal-append_literal s (query_segment m) [] t = refl
both_literal-append_literal s backend_segment [] t = refl
both_literal-append_literal s request_bytes_segment [] t = refl
both_literal-append_literal s path_hash_segment [] t = refl
both_literal-append_literal s (variant_segment c g) [] t = refl
both_literal-append_literal s r (q ∷ ss) t = refl

is_merged-append_literal :
    (ss : List BodySegment) (x : ℕ) (t : Bytes)
    → is_merged ss ≡ true
    → is_merged (append_literal ss (x ∷ t)) ≡ true
unfolding append_literal
is_merged-append_literal [] x t h = refl
is_merged-append_literal (s ∷ []) x t h =
    is_merged-extend_last s x t (and_first (adds_bytes s) true true h)
is_merged-append_literal (s ∷ r ∷ ss) x t h = rw (both_literal-append_literal s r ss (x ∷ t)) (
    and_replace (adds_bytes s) (not (is_literal s && is_literal r)) (is_merged (r ∷ ss))
      (is_merged (append_literal (r ∷ ss) (x ∷ t))) h (is_merged-append_literal (r ∷ ss) x t))

is_merged-literal :
    (body : Body) (t : Bytes)
    → is_merged body.segments ≡ true
    → is_merged (literal body t).segments ≡ true
unfolding literal
is_merged-literal body [] h = h
is_merged-literal body (x ∷ t) h = is_merged-append_literal body.segments x t h

is_merged-apply_call :
    (body : Body) (call : Call)
    → is_merged body.segments ≡ true
    → is_merged (apply_call body call).segments ≡ true
unfolding path query backend request_bytes path_hash backend_variant
is_merged-apply_call body (call_literal t) h = is_merged-literal body t h
is_merged-apply_call body (call_path m) h = elim (Bool-cases (m != 0)) [
  | inl some_bytes ↦ rw some_bytes (is_merged-push body.segments (path_segment m) refl some_bytes h)
  | inr none_left ↦ rw none_left h
]
is_merged-apply_call body (call_query m) h = elim (Bool-cases (m != 0)) [
  | inl some_bytes ↦
      rw some_bytes (is_merged-push body.segments (query_segment m) refl some_bytes h)
  | inr none_left ↦ rw none_left h
]
is_merged-apply_call body call_backend h = is_merged-push body.segments backend_segment refl refl h
is_merged-apply_call body call_request_bytes h =
    is_merged-push body.segments request_bytes_segment refl refl h
is_merged-apply_call body call_path_hash h =
    is_merged-push body.segments path_hash_segment refl refl h
is_merged-apply_call body (call_variant cpu gpu) h = elim (Bool-cases (bytes_eq cpu gpu)) [
  | inl same ↦ rw same (is_merged-literal body cpu h)
  | inr differ ↦
      rw differ (is_merged-push body.segments (variant_segment cpu gpu) refl (ap not differ) h)
]

-- Whatever calls build a body, no segment of it is empty and no two literals follow each other, if
-- that held of the body they start from.
pub is_merged-build :
    (body : Body) (calls : List Call)
    → is_merged body.segments ≡ true
    → is_merged (build body calls).segments ≡ true
is_merged-build body [] h = h
is_merged-build body (call ∷ calls) h =
    is_merged-build (apply_call body call) calls (is_merged-apply_call body call h)
