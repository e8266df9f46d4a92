-- ===== src/Router/Routes.antt =====
-- The routes that `RouterCompiler::compile` of src/router.rs compiles, and the words that it emits
-- for them.
use mathlib.Core.List.{append_assoc, append-nil}
use gput.Base.{
  ℕ, ◌+◌, ◌*◌, ◌≡◌, inl, inr, refl, sym, ap, ◌∙◌, Bool, true, false, not, ◌||◌, none, List, [], ◌∷◌,
  ◌++◌, arith, length, All, store, Bool-cases,
}
use gput.Base.Text.{bytes_eq, bytes_eq_iff}
use gput.Base.Yields
use gput.Base.Yields.{Yields, yields}
use gput.Base.{path_length_not_u32, duplicate_route}
use gput.Router.Body.{Bytes, Response}
use gput.Router.Source.{RouteDefinition}
use gput.Router.Strings.{StringTable}
use gput.Router.Request.{fnv1a}
use gput.Router.Segments.{CompiledResponse, validate_route_path}
use gput.Router.Emit.{emit_response, try_u32, route_stride_words}
use gput.Router.Compile.{CompiledRoute, has_path, compile_routes, emit_routes}
use gput.Router.Serve.{find_path, response_or}
use gput.Router.Interning.{
  Extends, Extends-refl, Extends-trans, IsTable, intern-Interned, grows, is_table,
}
use gput.Router.Implements.{StandsFor, StandsFor-Extends}
use gput.Router.Meaning.{response_for}
use gput.Router.Lookup.{IsHashed, Distinct}
use gput.Router.Compiling.{compile_response-Compiled}

-- A compiled route for each route of the source, in order.
pub data RoutesStand (strings : List Bytes)
    : List CompiledRoute → List RouteDefinition → Type 0 where
  no_routes : RoutesStand strings [] []
  with_route :
      {c : CompiledRoute} {d : RouteDefinition} {cs : List CompiledRoute}
      {ds : List RouteDefinition}
      → c.path ≡ d.route_path
      → StandsFor strings c.response d.response
      → RoutesStand strings cs ds
      → RoutesStand strings (c ∷ cs) (d ∷ ds)

pub RoutesStand-Extends :
    (strings extended : List Bytes)
    → Extends strings extended
    → (cs : List CompiledRoute) (ds : List RouteDefinition) → RoutesStand strings cs ds
    → RoutesStand extended cs ds
RoutesStand-Extends strings extended e cs ds no_routes = no_routes
RoutesStand-Extends strings extended e cs ds (with_route same h rest) =
    with_route same (StandsFor-Extends strings extended e _ _ h)
      (RoutesStand-Extends strings extended e _ _ rest)

-- The search among the compiled routes answers as the search among the source's.
pub response_or-find_path :
    (strings : List Bytes) (path : Bytes) (c : CompiledResponse) (r : Response)
    (cs : List CompiledRoute) (ds : List RouteDefinition)
    → StandsFor strings c r
    → RoutesStand strings cs ds
    → StandsFor strings (response_or c (find_path path cs)) (response_for path r ds)
unfolding find_path response_for
response_or-find_path strings path c r cs ds h no_routes = h
response_or-find_path strings path c r cs ds h
      (with_route {c = c₁} {d = d₁} {cs = cs₁} {ds = ds₁} same stands rest) =
    let named : bytes_eq d₁.route_path path ≡ bytes_eq c₁.path path =
      ap (λ p. bytes_eq p path) (sym same) in
    let later = response_or-find_path strings path c r cs₁ ds₁ h rest in
    elim (Bool-cases (bytes_eq c₁.path path)) [
      | inl hit ↦ rw (named, hit) stands
      | inr miss ↦ rw (named, miss) later
    ]

-- A new path is none of those seen, and differs from each.
abbrev pub Unseen : List Bytes → List CompiledRoute → Type 0
Unseen seen routes = All (λ (r : CompiledRoute). has_path r.path seen ≡ false) routes

or-false : (a b : Bool) → a || b ≡ false → (a ≡ false) × (b ≡ false)
or-false true b h = cc
or-false false b h = (refl, h)

bytes_eq-flip : (xs ys : Bytes) → bytes_eq xs ys ≡ false → bytes_eq ys xs ≡ false
bytes_eq-flip xs ys h = elim (Bool-cases (bytes_eq ys xs)) [
  | inl same ↦
      let again = (bytes_eq_iff xs ys).1 (sym ((bytes_eq_iff ys xs).0 same)) in
      let w = sym again ∙ h in cc
  | inr differ ↦ differ
]

Unseen-cons :
    (p : Bytes) (seen : List Bytes) (routes : List CompiledRoute)
    → Unseen (p ∷ seen) routes
    → Unseen seen routes × (find_path p routes ≡ none)
unfolding has_path find_path
Unseen-cons p seen [] h = (tt, refl)
Unseen-cons p seen (r ∷ routes) h =
    let inner = Unseen-cons p seen routes h.1 in
    let apart = or-false (bytes_eq p r.path) (has_path r.path seen) h.0 in
    let differs : bytes_eq r.path p ≡ false = bytes_eq-flip p r.path apart.0 in
    ((apart.1, inner.0), rw differs inner.1)

-- What the loop over the routes adds to those it has.
pub record Added (seen : List Bytes) (table : StringTable) (routes : List CompiledRoute)
    (rest : List RouteDefinition) (out : List CompiledRoute × StringTable) : Type 0 where
  pub added : List CompiledRoute
  pub appended : out.0 ≡ routes ++ added
  pub valid : IsTable out.1
  pub grown : Extends table.values out.1.values
  pub stand : RoutesStand out.1.values added rest
  pub distinct : Distinct added
  pub unseen : Unseen seen added
  pub hashed : All IsHashed added

pub compile_routes-Added :
    (seen : List Bytes) (table : StringTable) (routes : List CompiledRoute)
    (rest : List RouteDefinition)
    → IsTable table
    → Yields (Added seen table routes rest) (compile_routes seen table routes rest)
unfolding compile_routes
compile_routes-Added seen table routes [] h = yields (record {
  added = [];
  appended = sym (append-nil routes);
  valid = h;
  grown = Extends-refl table.values;
  stand = no_routes;
  distinct = tt;
  unseen = tt;
  hashed = tt;
})
compile_routes-Added seen table routes (d ∷ rest) h =
    Yields.bind (Yields.it (validate_route_path d.route_path)) λ _ _.
      Yields.bind (Yields.ensured (not (has_path d.route_path seen)) duplicate_route) λ _ fresh.
        Yields.bind (compile_response-Compiled table d.response h) λ c k.
          let route : CompiledRoute = record {
            path = d.route_path;
            path_hash = fnv1a d.route_path;
            response = c.0;
          } in
          Yields.mono
            (compile_routes-Added (d.route_path ∷ seen) c.1 (routes ++ route ∷ []) rest k.valid)
            λ out a.
              let apart = Unseen-cons d.route_path seen a.added a.unseen in
              record {
                added = route ∷ a.added;
                appended = a.appended ∙ append_assoc routes (route ∷ []) a.added;
                valid = a.valid;
                grown = Extends-trans _ _ _ k.grown a.grown;
                stand = with_route refl (StandsFor-Extends _ _ a.grown _ _ k.stands) a.stand;
                distinct = (apart.1, a.distinct);
                unseen = (ground (arith, fresh), apart.0);
                hashed = (refl, a.hashed);
              }

-- Emitting the table only adds strings.
pub emit_routes-Extends :
    (i : ℕ) (words : List ℕ) (table : StringTable) (routes : List CompiledRoute)
    → IsTable table
    → Yields
        (λ (out : List ℕ × StringTable). Extends table.values out.1.values)
        (emit_routes i words table routes)
unfolding emit_routes
emit_routes-Extends i words table [] h = yields (Extends-refl table.values)
emit_routes-Extends i words table (r ∷ routes) h =
    Yields.bind (Yields.it (emit_response words r.response)) λ emitted _.
      Yields.bind (intern-Interned table r.path h) λ name k.
        Yields.bind (Yields.it (store emitted.1 (i * route_stride_words) r.path_hash)) λ w₁ _.
          Yields.bind (Yields.it (try_u32 (length r.path) path_length_not_u32)) λ n _.
            Yields.bind (Yields.it (store w₁ (i * route_stride_words + 1) n)) λ w₂ _.
              Yields.bind (Yields.it (store w₂ (i * route_stride_words + 2) name.0)) λ w₃ _.
                Yields.bind (Yields.it (store w₃ (i * route_stride_words + 3) emitted.0)) λ w₄ _.
                  Yields.mono (emit_routes-Extends (i + 1) w₄ name.1 routes (is_table k))
                    λ out e. Extends-trans _ _ _ (grows k) e
