-- ===== src/Router/Interning.antt =====
-- What `StringTable::intern` of src/router.rs keeps: an index stands for the same string for good.
use mathlib.Core.List.{append_assoc, append-nil}
use gput.Base.{
  ℕ, zero, suc, ◌^◌, ◌≡◌, inl, inr, refl, sym, ap, ◌∙◌, some, List, [], ◌∷◌, ◌++◌, arith, ltb,
  length, All, ok, index, Bool-cases, Option-cases,
}
use gput.Base.Text.{bytes_eq, bytes_eq_iff}
use gput.Base.Yields.{Yields, yields, panics}
use gput.Router.Body.{Bytes}
use gput.Router.Strings.{StringTable, empty_table, find_id, add_value, intern}

-- The strings are the first of the others.
abbrev pub Extends : List Bytes → List Bytes → Type 0
Extends strings extended = (more : List Bytes) × (extended ≡ strings ++ more)

pub Extends-refl : (strings : List Bytes) → Extends strings strings
Extends-refl strings = ([], sym (append-nil strings))

pub Extends-trans : (a b c : List Bytes) → Extends a b → Extends b c → Extends a c
Extends-trans a b c h k = (h.0 ++ k.0, k.1 ∙ ap (λ t. t ++ k.0) h.1 ∙ append_assoc a h.0 k.0)

index-append :
    (xs ys : List Bytes) (i : ℕ) (v : Bytes) → index xs i ≡ ok v → index (xs ++ ys) i ≡ ok v
index-append [] ys i v h = cc
index-append (x ∷ xs) ys zero v h = h
index-append (x ∷ xs) ys (suc i) v h = index-append xs ys i v h

-- An index that is read keeps its string.
pub index-Extends :
    (strings extended : List Bytes) (i : ℕ) (v : Bytes)
    → Extends strings extended
    → index strings i ≡ ok v
    → index extended i ≡ ok v
index-Extends strings extended i v e h = ap (λ t. index t i) e.1 ∙ index-append strings e.0 i v h

index-last : (xs : List Bytes) (v : Bytes) → index (xs ++ v ∷ []) (length xs) ≡ ok v
index-last [] v = refl
index-last (x ∷ xs) v = index-last xs v

-- Every entry of the map is the index of its string.
unfoldable pub IsTable : StringTable → Type 0
IsTable table = All (λ (entry : Bytes × ℕ). index table.values entry.1 ≡ ok entry.0) table.ids

pub empty_table-IsTable : IsTable empty_table
unfolding IsTable
empty_table-IsTable = tt

All-Extends :
    (strings extended : List Bytes) (ids : List (Bytes × ℕ))
    → Extends strings extended
    → All (λ (entry : Bytes × ℕ). index strings entry.1 ≡ ok entry.0) ids
    → All (λ (entry : Bytes × ℕ). index extended entry.1 ≡ ok entry.0) ids
All-Extends strings extended [] e h = tt
All-Extends strings extended (entry ∷ ids) e h =
    (index-Extends strings extended entry.1 entry.0 e h.0, All-Extends strings extended ids e h.1)

find_id-index :
    (strings : List Bytes) (ids : List (Bytes × ℕ)) (value : Bytes) (id : ℕ)
    → All (λ (entry : Bytes × ℕ). index strings entry.1 ≡ ok entry.0) ids
    → find_id value ids ≡ some id
    → index strings id ≡ ok value
unfolding find_id
find_id-index strings [] value id h found = cc
find_id-index strings ((v, i) ∷ ids) value id h found = elim (Bool-cases (bytes_eq v value)) [
  | inl same ↦
      let first : find_id value ((v, i) ∷ ids) ≡ some i = rw (same, find_id) refl in
      let this : i ≡ id = ground (arith, sym first ∙ found) in
      ap (λ t. index strings t) (sym this) ∙ h.0 ∙ ap ok ((bytes_eq_iff v value).0 same)
  | inr other ↦
      let later : find_id value ((v, i) ∷ ids) ≡ find_id value ids = rw (other, find_id) refl in
      find_id-index strings ids value id h.1 (sym later ∙ found)
]

-- What a call of `intern` that returns has done.
pub data Interned (table : StringTable) (value : Bytes) (id : ℕ) (next : StringTable) : Type 0 where
  interned :
      IsTable next
      → Extends table.values next.values
      → index next.values id ≡ ok value
      → Interned table value id next

add_value-Interned :
    (table : StringTable) (value : Bytes)
    → IsTable table
    → Interned table value (length table.values) (add_value table value (length table.values))
unfolding IsTable
add_value-Interned table value h =
    let more : Extends table.values (table.values ++ value ∷ []) = (value ∷ [], refl) in
    let last = index-last table.values value in
    interned (last, All-Extends table.values (table.values ++ value ∷ []) table.ids more h) more
      last

-- The index of a string that is interned reads the string, also later; no string moves.
pub intern-Interned :
    (table : StringTable) (value : Bytes)
    → IsTable table
    → Yields
        (λ (found : ℕ × StringTable). Interned table value found.0 found.1)
        (intern table value)
unfolding intern IsTable
intern-Interned table value h = elim (Option-cases (find_id value table.ids)) [
  | inl fresh ↦
      rw (fresh, intern)
        (elim (Bool-cases (ltb (length table.values) (2 ^ 32))) [
          | inl fits ↦ rw fits (yields (add_value-Interned table value h))
          | inr full ↦ rw full panics
        ])
  | inr (i, found) ↦
      rw (found, intern)
        (yields (
          interned h (Extends-refl table.values)
            (find_id-index table.values table.ids value i h found)))
]

module _ {t next : StringTable} {value : Bytes} {id : ℕ} where
  pub reads : Interned t value id next → index next.values id ≡ ok value
  reads (interned t e h) = h

  pub grows : Interned t value id next → Extends t.values next.values
  grows (interned t e h) = e

  pub is_table : Interned t value id next → IsTable next
  is_table (interned t e h) = t
