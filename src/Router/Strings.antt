-- ===== src/Router/Strings.antt =====
-- `StringTable` of src/router.rs: every string once, and its index.

use gput.Base.{
  ℕ, ◌^◌, Option, none, some, List, [], ◌∷◌, ◌++◌, ltb, if◌then◌else◌, length, Outcome, ok, panic,
  ◌>>=◌, index,
}
use gput.Base.Text.{bytes_eq}
use gput.Router.Body.{Bytes}

-- `ids` is the hash map from a string to its index.
pub record StringTable : Type 0 where
  pub values : List Bytes
  pub ids : List (Bytes × ℕ)

abbrev pub empty_table : StringTable
empty_table = record { values = []; ids = [] }

unfoldable pub find_id : Bytes → List (Bytes × ℕ) → Option ℕ
find_id value [] = none
find_id value ((v, id) ∷ ids) =
    let rest = find_id value ids in if bytes_eq v value then some id else rest

-- `u32::try_from(..).expect(..)`.
abbrev pub expect_u32 : ℕ → Outcome ℕ
expect_u32 n = if ltb n (2 ^ 32) then ok n else panic

abbrev pub add_value : StringTable → Bytes → ℕ → StringTable
add_value table value id = record {
  values = table.values ++ value ∷ [];
  ids = (value, id) ∷ table.ids;
}

-- The index of the value, and the table with it.
unfoldable pub intern : StringTable → Bytes → Outcome (ℕ × StringTable)
intern table value = elim (find_id value table.ids) [
  | some id ↦ ok (id, table)
  | none ↦ expect_u32 (length table.values) >>= λ id. ok (id, add_value table value id)
]

unfoldable pub get : StringTable → ℕ → Outcome Bytes
get table id = index table.values id
