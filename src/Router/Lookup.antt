-- ===== src/Router/Lookup.antt =====
-- The route table of src/router.rs: sorting keeps every route, and the search by hash finds the route
-- of the path.

use gput.Base.{
  ℕ, ◌≤◌, ◌<◌, ◌≡◌, ◌≢◌, inl, inr, refl, sym, ap, ◌∙◌, true, false, none, some, List, [], ◌∷◌,
  arith, ltb, ◌==◌, All, Bool-cases, ==_iff, ltb→lt,
}
use gput.Base.Text.{bytes_eq, bytes_eq_iff}
use gput.Router.Body.{Bytes}
use gput.Router.Request.{RequestParts, fnv1a}
use gput.Router.Compile.{CompiledRoute, route_leb, insert_route, sort_routes}
use gput.Router.Serve.{partition_point, take_hash, find_path, find_route}

-- The hash of a route is that of its path.
abbrev pub IsHashed : CompiledRoute → Type 0
IsHashed route = route.path_hash ≡ fnv1a route.path

abbrev pub paths : List CompiledRoute → List Bytes
paths [] = []
paths (route ∷ routes) = route.path ∷ paths routes

-- No path stands twice.
abbrev pub Distinct : List CompiledRoute → Type 0
Distinct [] = Unit {0}
Distinct (route ∷ routes) = (find_path route.path routes ≡ none) × Distinct routes

-- The hashes do not fall.
abbrev pub Ascending : List CompiledRoute → Type 0
Ascending [] = Unit {0}
Ascending (route ∷ routes) =
    All (λ (r : CompiledRoute). route.path_hash ≤ r.path_hash) routes × Ascending routes

find_path-hit :
    (path : Bytes) (r : CompiledRoute) (routes : List CompiledRoute)
    → bytes_eq r.path path ≡ true
    → find_path path (r ∷ routes) ≡ some r
unfolding find_path
find_path-hit path r routes same = rw same refl

find_path-miss :
    (path : Bytes) (r : CompiledRoute) (routes : List CompiledRoute)
    → bytes_eq r.path path ≡ false
    → find_path path (r ∷ routes) ≡ find_path path routes
unfolding find_path
find_path-miss path r routes other = rw other refl

-- Both lists begin alike.
find_path-cons :
    (path : Bytes) (r : CompiledRoute) (xs ys : List CompiledRoute)
    → find_path path xs ≡ find_path path ys
    → find_path path (r ∷ xs) ≡ find_path path (r ∷ ys)
find_path-cons path r xs ys h = elim (Bool-cases (bytes_eq r.path path)) [
  | inl same ↦ find_path-hit path r xs same ∙ sym (find_path-hit path r ys same)
  | inr other ↦ find_path-miss path r xs other ∙ h ∙ sym (find_path-miss path r ys other)
]

find_path-skip_cons :
    (path : Bytes) (r : CompiledRoute) (routes : List CompiledRoute)
    → find_path path (r ∷ routes) ≡ none
    → (bytes_eq r.path path ≡ false) × (find_path path routes ≡ none)
find_path-skip_cons path r routes fresh = elim (Bool-cases (bytes_eq r.path path)) [
  | inl same ↦ let h = sym (find_path-hit path r routes same) ∙ fresh in cc
  | inr other ↦ (other, sym (find_path-miss path r routes other) ∙ fresh)
]

-- A route whose path is not there yet is found as if it stood first.
find_path-insert_fresh :
    (path : Bytes) (route : CompiledRoute) (routes : List CompiledRoute)
    → (bytes_eq route.path path ≡ true → find_path path routes ≡ none)
    → find_path path (insert_route route routes) ≡ find_path path (route ∷ routes)
unfolding insert_route
find_path-insert_fresh path route [] fresh = refl
find_path-insert_fresh path route (r ∷ routes) fresh = elim (Bool-cases (route_leb route r)) [
  | inl before ↦ rw before refl
  | inr after ↦ rw after (elim (Bool-cases (bytes_eq route.path path)) [
    | inl same ↦
        let none_left = find_path-skip_cons path r routes (fresh same) in
        find_path-miss path r (insert_route route routes) none_left.0
        ∙ find_path-insert_fresh path route routes (λ _. none_left.1)
        ∙ find_path-hit path route routes same
        ∙ sym (find_path-hit path route (r ∷ routes) same)
    | inr other ↦
        let inner =
          find_path-insert_fresh path route routes (λ e. let w = sym e ∙ other in cc)
          ∙ find_path-miss path route routes other in
        find_path-cons path r (insert_route route routes) routes inner
        ∙ sym (find_path-miss path route (r ∷ routes) other)
  ])
]

-- The sorted table has the route of each path.
pub find_path-sort :
    (path : Bytes) (routes : List CompiledRoute)
    → Distinct routes
    → find_path path (sort_routes routes) ≡ find_path path routes
unfolding sort_routes
find_path-sort path [] h = refl
find_path-sort path (route ∷ routes) h =
    let sorted = sort_routes routes in
    let fresh : find_path route.path sorted ≡ none = find_path-sort route.path routes h.1 ∙ h.0 in
    find_path-insert_fresh path route sorted
      (λ same. ap (λ p. find_path p sorted) (sym ((bytes_eq_iff route.path path).0 same)) ∙ fresh)
    ∙ find_path-cons path route sorted routes (find_path-sort path routes h.1)

All-insert :
    (P : CompiledRoute → Type 0) (route : CompiledRoute) (routes : List CompiledRoute)
    → P route
    → All P routes
    → All P (insert_route route routes)
unfolding insert_route
All-insert P route [] h k = (h, k)
All-insert P route (r ∷ routes) h k = elim (Bool-cases (route_leb route r)) [
  | inl before ↦ rw before (h, k)
  | inr after ↦ rw after (k.0, All-insert P route routes h k.1)
]

pub All-sort :
    (P : CompiledRoute → Type 0) (routes : List CompiledRoute)
    → All P routes
    → All P (sort_routes routes)
unfolding sort_routes
All-sort P [] h = h
All-sort P (route ∷ routes) h = All-insert P route (sort_routes routes) h.0 (All-sort P routes h.1)

route_leb-true :
    (left right : CompiledRoute) → route_leb left right ≡ true → left.path_hash ≤ right.path_hash
unfolding route_leb
route_leb-true left right h = ground arith

route_leb-false :
    (left right : CompiledRoute) → route_leb left right ≡ false → right.path_hash ≤ left.path_hash
unfolding route_leb
route_leb-false left right h = ground arith

All-le_trans :
    (low : ℕ) (high : ℕ) (routes : List CompiledRoute)
    → low ≤ high
    → All (λ (r : CompiledRoute). high ≤ r.path_hash) routes
    → All (λ (r : CompiledRoute). low ≤ r.path_hash) routes
All-le_trans low high [] h k = tt
All-le_trans low high (r ∷ routes) h k = (omega (arith, k.0), All-le_trans low high routes h k.1)

insert-Ascending :
    (route : CompiledRoute) (routes : List CompiledRoute)
    → Ascending routes
    → Ascending (insert_route route routes)
unfolding insert_route
insert-Ascending route [] h = (tt, tt)
insert-Ascending route (r ∷ routes) h = elim (Bool-cases (route_leb route r)) [
  | inl before ↦
      let low = route_leb-true route r before in
      rw before ((low, All-le_trans route.path_hash r.path_hash routes low h.0), h)
  | inr after ↦ rw after (
    All-insert (λ t. r.path_hash ≤ CompiledRoute.path_hash t) route routes
        (route_leb-false route r after) h.0,
    insert-Ascending route routes h.1,
  )
]

pub sort-Ascending : (routes : List CompiledRoute) → Ascending (sort_routes routes)
unfolding sort_routes
sort-Ascending [] = tt
sort-Ascending (route ∷ routes) =
    insert-Ascending route (sort_routes routes) (sort-Ascending routes)

-- A route of another hash has another path.
hash_differs :
    (path : Bytes) (r : CompiledRoute)
    → IsHashed r
    → r.path_hash ≢ fnv1a path
    → bytes_eq r.path path ≡ false
hash_differs path r hashed differs = elim (Bool-cases (bytes_eq r.path path)) [
  | inl same ↦ absurd (differs (hashed ∙ ap fnv1a ((bytes_eq_iff r.path path).0 same)))
  | inr other ↦ other
]

find_path-above :
    (path : Bytes) (low : ℕ) (routes : List CompiledRoute)
    → All IsHashed routes
    → fnv1a path < low
    → All (λ (r : CompiledRoute). low ≤ r.path_hash) routes
    → find_path path routes ≡ none
unfolding find_path
find_path-above path low [] hashed h above = refl
find_path-above path low (r ∷ routes) hashed h above =
    find_path-miss path r routes
      (hash_differs path r hashed.0 (λ e. absurd (omega (arith, e, above.0, h))))
    ∙ find_path-above path low routes hashed.1 h above.1

find_path-take_hash :
    (path : Bytes) (routes : List CompiledRoute)
    → All IsHashed routes
    → Ascending routes
    → All (λ (r : CompiledRoute). fnv1a path ≤ r.path_hash) routes
    → find_path path (take_hash (fnv1a path) routes) ≡ find_path path routes
unfolding take_hash find_path
find_path-take_hash path [] hashed up above = refl
find_path-take_hash path (r ∷ routes) hashed up above =
    elim (Bool-cases (r.path_hash == fnv1a path)) [
      | inl same ↦ rw same (
          find_path-cons path r (take_hash (fnv1a path) routes) routes
            (find_path-take_hash path routes hashed.1 up.1 above.1))
      | inr other ↦
          let differs : r.path_hash ≢ fnv1a path =
            (λ e. let w = sym ((==_iff r.path_hash (fnv1a path)).1 e) ∙ other in cc) in
          let over : fnv1a path < r.path_hash = omega (arith, differs, above.0) in
          rw other (
            sym (
              find_path-miss path r routes (hash_differs path r hashed.0 differs)
              ∙ find_path-above path r.path_hash routes hashed.1 over up.0))
    ]

-- The binary search of the table finds the route of the path.
pub find_route-find_path :
    (parts : RequestParts) (routes : List CompiledRoute)
    → parts.path_hash ≡ fnv1a parts.path
    → All IsHashed routes
    → Ascending routes
    → find_route parts routes ≡ find_path parts.path routes
unfolding find_route partition_point take_hash find_path
find_route-find_path parts [] is_hash hashed up = refl
find_route-find_path parts (r ∷ routes) is_hash hashed up =
    elim (Bool-cases (ltb r.path_hash parts.path_hash)) [
      | inl below ↦
          let low : r.path_hash < parts.path_hash = ltb→lt r.path_hash parts.path_hash below in
          let differs : r.path_hash ≢ fnv1a parts.path =
            (λ e. absurd (omega (arith, e, is_hash, low))) in
          rw below (
            find_route-find_path parts routes is_hash hashed.1 up.1
            ∙ sym (find_path-miss parts.path r routes (hash_differs parts.path r hashed.0 differs)))
      | inr found ↦
          let above : fnv1a parts.path ≤ r.path_hash = ground (arith, found, is_hash) in
          rw found (
            ap (λ h. find_path parts.path (take_hash h (r ∷ routes))) is_hash
            ∙ find_path-take_hash parts.path (r ∷ routes) hashed up
                (above, All-le_trans (fnv1a parts.path) r.path_hash routes above up.0))
    ]

-- In the sorted table, the search by hash finds the one route of the path, as a walk over the unsorted
-- routes does, where every route has its path's hash and no path stands twice.
pub find_route-sort_routes :
    (parts : RequestParts) (routes : List CompiledRoute)
    → parts.path_hash ≡ fnv1a parts.path
    → All IsHashed routes
    → Distinct routes
    → find_route parts (sort_routes routes) ≡ find_path parts.path routes
find_route-sort_routes parts routes is_hash hashed distinct =
    find_route-find_path parts (sort_routes routes) is_hash (All-sort IsHashed routes hashed)
      (sort-Ascending routes)
    ∙ find_path-sort parts.path routes distinct
