-- ===== src/Router/Refines.antt =====
-- The compilation of src/router.rs against what the source's router answers.

use gput.Base.{
  ℕ, ◌*◌, ◌^◌, ◌≡◌, refl, sym, ap, ◌∙◌, List, [], ◌∷◌, map, ltb, length, replicate, All, ok,
  ok_of_bind, ok_injective, subst,
}
use gput.Base.Yields
use gput.Base.Yields.{Yields, yields}
use gput.Base.{
  route_count_not_u32, route_table_overflow, response_size_not_u32, router_program_not_u32,
}
use gput.Router.Body.{Bytes}
use gput.Router.Source.{Router}
use gput.Router.Strings.{StringTable}
use gput.Router.Request.{
  fnv1a, RequestParts, RequestParse, get_request, bad_request_line, method_refused, parse_request,
  empty_parts,
}
use gput.Router.Segments.{CompiledResponse}
use gput.Router.Emit.{ShaderStringIds, emit_response, try_u32, route_stride_words}
use gput.Router.Compile.{
  CompiledRoute, CompiledRouter, sort_routes, finish_router, largest_response, compile_with,
  compile, new_compiler, RouterCompiler,
}
use gput.Router.Serve.{
  find_path, find_route, response_or, route_request, render_response, CpuProcessor, with_router,
  cpu_name, process_batch,
}
use gput.Router.Interning.{
  Extends, Extends-trans, index-Extends, IsTable, empty_table-IsTable, intern-Interned, reads,
  grows, is_table,
}
use gput.Router.Limits.{AreNames, AreNames-Extends, Limited, finish_router-Limited}
use gput.Router.Implements.{StandsFor, StandsFor-Extends, render_response-StandsFor}
use gput.Router.Meaning.{response_for, response_bytes, answer}
use gput.Router.Lookup.{
  IsHashed, Ascending, find_path-sort, All-sort, sort-Ascending, find_route-find_path,
}
use gput.Router.Parsing.{IsHashedParse, parse_request-IsHashedParse}
use gput.Router.Compiling.{compile_response-Compiled}
use gput.Router.Routes.{
  response_or-find_path, compile_routes-Added, emit_routes-Extends, RoutesStand-Extends,
}

-- What a compiled router keeps of its source.
pub record Serves (source : Router) (c : CompiledRouter) : Type 0 where
  pub hashed : All IsHashed c.routes
  pub ascending : Ascending c.routes
  pub found :
      (path : Bytes)
      → StandsFor c.strings
          (response_or c.fallback (find_path path c.routes))
          (response_for path source.fallback source.routes)
  pub bad_request : StandsFor c.strings c.bad_request source.bad_request
  pub method_not_allowed : StandsFor c.strings c.method_not_allowed source.method_not_allowed

-- What the end of the compilation takes over.
record Finished (table : StringTable) (routes : List CompiledRoute)
    (fallback bad_request method_not_allowed : CompiledResponse) (c : CompiledRouter) : Type 0 where
  same_routes : c.routes ≡ routes
  same_fallback : c.fallback ≡ fallback
  same_bad_request : c.bad_request ≡ bad_request
  same_method_not_allowed : c.method_not_allowed ≡ method_not_allowed
  grown : Extends table.values c.strings

finish_router-Finished :
    (ids : ShaderStringIds) (table : StringTable) (routes : List CompiledRoute)
    (fallback bad_request method_not_allowed : CompiledResponse)
    → IsTable table
    → Yields
        (Finished table routes fallback bad_request method_not_allowed)
        (finish_router ids table routes fallback bad_request method_not_allowed)
unfolding finish_router
finish_router-Finished ids table routes f b m h =
    Yields.bind
      (Yields.ensured (ltb (length routes * route_stride_words) (2 ^ 64)) route_table_overflow)
      λ _ _.
        Yields.bind
          (emit_routes-Extends 0 (replicate (length routes * route_stride_words) 0) table routes h)
          λ emitted e. Yields.bind (Yields.it (emit_response emitted.0 f)) λ e₁ _.
            Yields.bind (Yields.it (emit_response e₁.1 b)) λ e₂ _.
              Yields.bind (Yields.it (emit_response e₂.1 m)) λ e₃ _.
                Yields.bind (Yields.it (largest_response emitted.1 ids routes f b m)) λ largest _.
                  Yields.bind (Yields.ensured (ltb largest (2 ^ 32)) response_size_not_u32) λ _ _.
                    Yields.bind (Yields.ensured (ltb (length e₃.1) (2 ^ 32)) router_program_not_u32)
                      λ _ _.
                        Yields.bind (Yields.it (try_u32 (length routes) route_count_not_u32))
                          λ count _. yields (record {
                            same_routes = refl;
                            same_fallback = refl;
                            same_bad_request = refl;
                            same_method_not_allowed = refl;
                            grown = e;
                          })

-- The compiler starts with a table, in which the header's strings have their indices.
record IsReady (compiler : RouterCompiler) : Type 0 where
  valid : IsTable compiler.strings
  names : AreNames compiler.strings.values compiler.shader_string_ids

new_compiler-IsReady : Yields IsReady new_compiler
unfolding new_compiler
new_compiler-IsReady = Yields.bind (intern-Interned _ _ empty_table-IsTable) λ a i₁.
    Yields.bind (intern-Interned _ _ (is_table i₁)) λ b i₂.
      Yields.bind (intern-Interned _ _ (is_table i₂)) λ c i₃.
        Yields.bind (intern-Interned _ _ (is_table i₃)) λ d i₄.
          Yields.bind (intern-Interned _ _ (is_table i₄)) λ e i₅.
            let late₃ = Extends-trans _ _ _ (grows i₄) (grows i₅) in
            let late₂ = Extends-trans _ _ _ (grows i₃) late₃ in
            let late₁ = Extends-trans _ _ _ (grows i₂) late₂ in
            yields (record {
              valid = is_table i₅;
              names = record {
                version = index-Extends _ _ _ _ late₁ (reads i₁);
                content_type = index-Extends _ _ _ _ late₂ (reads i₂);
                content_length = index-Extends _ _ _ _ late₃ (reads i₃);
                tail = index-Extends _ _ _ _ (grows i₅) (reads i₄);
              };
            })

compile_with-Serves :
    (compiler : RouterCompiler) (source : Router)
    → IsReady compiler
    → Yields (λ c. Serves source c × Limited c) (compile_with compiler source)
unfolding compile_with
compile_with-Serves compiler source h =
    Yields.bind (Yields.ensured (ltb (length source.routes) (2 ^ 32)) route_count_not_u32) λ _ _.
      Yields.bind (compile_routes-Added [] compiler.strings [] source.routes h.valid) λ routes a.
        Yields.bind (compile_response-Compiled _ source.fallback a.valid) λ f kf.
          Yields.bind (compile_response-Compiled _ source.bad_request kf.valid) λ b kb.
            Yields.bind (compile_response-Compiled _ source.method_not_allowed kb.valid) λ m km.
              let to_m =
                Extends-trans _ _ _ a.grown
                  (Extends-trans _ _ _ kf.grown (Extends-trans _ _ _ kb.grown km.grown)) in
              let names = AreNames-Extends _ _ compiler.shader_string_ids to_m h.names in
              Yields.mono
                (Yields.both
                  (finish_router-Finished compiler.shader_string_ids m.1 (sort_routes routes.0) f.0
                    b.0 m.0 km.valid)
                  (finish_router-Limited compiler.shader_string_ids m.1 (sort_routes routes.0) f.0
                    b.0 m.0 km.valid names))
                λ c (done, limited).
                  let late_b = Extends-trans _ _ _ km.grown done.grown in
                  let late_f = Extends-trans _ _ _ kb.grown late_b in
                  let late_a = Extends-trans _ _ _ kf.grown late_f in
                  let sorted : c.routes ≡ sort_routes a.added =
                    done.same_routes ∙ ap sort_routes a.appended in
                  let stand = RoutesStand-Extends _ _ late_a _ _ a.stand in
                  let f_stands = StandsFor-Extends _ _ late_f _ _ kf.stands in
                  (
                    record {
                      hashed =
                          subst (All IsHashed) (sym sorted) (All-sort IsHashed a.added a.hashed);
                      ascending = subst Ascending (sym sorted) (sort-Ascending a.added);
                      found = λ path.
                          rw (done.same_fallback, sorted, find_path-sort path a.added a.distinct)
                            (response_or-find_path c.strings path f.0 source.fallback a.added
                              source.routes f_stands stand);
                      bad_request =
                          rw done.same_bad_request (StandsFor-Extends _ _ late_b _ _ kb.stands);
                      method_not_allowed =
                          rw done.same_method_not_allowed
                            (StandsFor-Extends _ _ done.grown _ _ km.stands);
                    },
                    limited,
                  )

pub compile-Serves : (source : Router) → Yields (λ c. Serves source c × Limited c) (compile source)
unfolding compile
compile-Serves source =
    Yields.bind new_compiler-IsReady λ compiler h. compile_with-Serves compiler source h

answered :
    (source : Router) (c : CompiledRouter) (backend : Bytes) (n : ℕ)
    → Serves source c
    → (parts : RequestParts) → parts.path_hash ≡ fnv1a parts.path
    → render_response c (response_or c.fallback (find_route parts c.routes)) parts n backend
      ≡ ok (response_bytes parts n backend (response_for parts.path source.fallback source.routes))
answered source c backend n s parts hashed =
    ap (λ r. render_response c (response_or c.fallback r) parts n backend)
      (find_route-find_path parts c.routes hashed s.hashed s.ascending)
    ∙ render_response-StandsFor c parts n backend _ _ (s.found parts.path)

-- If a router compiles, the compiled router answers every request, for every backend's name, as its
-- source says: with the response of the first route whose path the request has, else the fallback's,
-- or with those for a bad request and for another method; it does not panic.
pub route_request-answer :
    (source : Router) (c : CompiledRouter) (request backend : Bytes)
    → compile source ≡ ok c
    → route_request c request backend ≡ ok (answer source request backend)
unfolding route_request answer
route_request-answer source c request backend h =
    let (s, limited) = Yields.value c (compile-Serves source) h in
    let n = length request in
    elim (parse_request request)
        as (λ (parsed : RequestParse).
          IsHashedParse parsed
          → elim parsed [
            | get_request parts ↦
                render_response c (response_or c.fallback (find_route parts c.routes)) parts n
                  backend
            | bad_request_line ↦ render_response c c.bad_request empty_parts n backend
            | method_refused ↦ render_response c c.method_not_allowed empty_parts n backend
          ]
            ≡ ok (elim parsed [
              | get_request parts ↦
                  response_bytes parts n backend
                    (response_for parts.path source.fallback source.routes)
              | bad_request_line ↦ response_bytes empty_parts n backend source.bad_request
              | method_refused ↦ response_bytes empty_parts n backend source.method_not_allowed
            ])) [
              | get_request parts ↦ answered source c backend n s parts
              | bad_request_line ↦
                  λ _. render_response-StandsFor c empty_parts n backend _ _ s.bad_request
              | method_refused ↦
                  λ _. render_response-StandsFor c empty_parts n backend _ _ s.method_not_allowed
            ]
      (parse_request-IsHashedParse request)

compiled_router :
    (source : Router) (processor : CpuProcessor)
    → with_router source ≡ ok processor
    → compile source ≡ ok processor.router
unfolding with_router
compiled_router source processor h =
    let (c, is_c, end) =
      ok_of_bind (compile source) (λ c. ok (record { router = c })) processor h in
    is_c ∙ ap ok (ap CpuProcessor.router (ok_injective _ _ end))

-- A CPU processor that is made from a router answers a batch with one response for each request, in
-- order, each as the router's source says, and returns no error.
pub process_batch-answer :
    (source : Router) (processor : CpuProcessor) (requests : List Bytes)
    → with_router source ≡ ok processor
    → process_batch processor requests
      ≡ ok (map (λ request. answer source request cpu_name) requests)
unfolding process_batch with_router
process_batch-answer source processor [] h = refl
process_batch-answer source processor (request ∷ requests) h =
    rw
      (
        route_request-answer source processor.router request cpu_name
            (compiled_router source processor h),
        process_batch-answer source processor requests h,
      )
      refl
