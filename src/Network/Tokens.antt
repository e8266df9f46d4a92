-- ===== src/Network/Tokens.antt =====
-- What `trim_ascii` and the comparisons without case of src/network.rs make of a padded word.
use gput.Base.{
  ℕ, ◌+◌, ◌≤◌, ◌≡◌, ◌↔◌, ◌⊎◌, inl, inr, refl, sym, ap, ◌∙◌, Bool, true, false, ◌&&◌, [], ◌∷◌, ◌++◌,
  arith, ◌==◌, if◌then◌else◌, All, Bool-cases,
}
use gput.Router.Body.{Bytes, is_empty}
use gput.Network.Close.{is_whitespace, trim_start, trim_end, trim_ascii, to_lower, eq_ignore_case}

-- A space, a tab, a line feed, a form feed or a return.
abbrev pub IsSpace : ℕ → Type 0
IsSpace b = (b ≡ 32) ⊎ ((b ≡ 9) ⊎ ((b ≡ 10) ⊎ ((b ≡ 12) ⊎ (b ≡ 13))))

abbrev pub IsLower : ℕ → Type 0
IsLower y = (97 ≤ y) × (y ≤ 122)

-- The bytes are the word, which is written in small letters, each letter in either case.
abbrev pub Spells : Bytes → Bytes → Type 0
Spells [] [] = Unit {0}
Spells [] (y ∷ ys) = ⊥
Spells (x ∷ xs) [] = ⊥
Spells (x ∷ xs) (y ∷ ys) = ((x ≡ y) ⊎ (x + 32 ≡ y)) × Spells xs ys

-- The bytes are the word in any case, with any space around it.
pub record IsWord (bytes word : Bytes) : Type 0 where
  pub before : Bytes
  pub middle : Bytes
  pub after : Bytes
  pub same : bytes ≡ before ++ (middle ++ after)
  pub space_before : All IsSpace before
  pub space_after : All IsSpace after
  pub spelled : Spells middle word

is_whitespace-IsSpace : (b : ℕ) → is_whitespace b ≡ true → IsSpace b
is_whitespace-IsSpace b h = ground arith

IsSpace-is_whitespace : (b : ℕ) → IsSpace b → is_whitespace b ≡ true
IsSpace-is_whitespace b h = ground arith

letter-is_whitespace : (x y : ℕ) → IsLower y → (x ≡ y) ⊎ (x + 32 ≡ y) → is_whitespace x ≡ false
letter-is_whitespace x y l h = ground arith

same_letter : (x y : ℕ) → IsLower y → (to_lower x == to_lower y ≡ true) ↔ ((x ≡ y) ⊎ (x + 32 ≡ y))
same_letter x y l = (λ h. ground arith, λ h. ground arith)

trim_start-cut :
    (bytes : Bytes) → (before : Bytes) × (bytes ≡ before ++ trim_start bytes) × All IsSpace before
trim_start-cut [] = ([], refl, tt)
trim_start-cut (b ∷ bytes) = elim (Bool-cases (is_whitespace b)) [
  | inl space ↦
      let (before, same, spaces) = trim_start-cut bytes in
      (b ∷ before, rw space (ap (λ t. b ∷ t) same), (is_whitespace-IsSpace b space, spaces))
  | inr other ↦ ([], rw other refl, tt)
]

trim_end-cut :
    (bytes : Bytes) → (after : Bytes) × (bytes ≡ trim_end bytes ++ after) × All IsSpace after
trim_end-cut [] = ([], refl, tt)
trim_end-cut (b ∷ bytes) =
    let (after, same, spaces) = trim_end-cut bytes in
    elim (Bool-cases (is_empty (trim_end bytes) && is_whitespace b)) [
      | inl goes ↦
          let (empty, space) = both (is_empty (trim_end bytes)) (is_whitespace b) goes in
          (
            b ∷ after,
            rw goes
                (ap (λ t. b ∷ t) (same ∙ ap (λ t. t ++ after) (no_bytes (trim_end bytes) empty))),
            (is_whitespace-IsSpace b space, spaces),
          )
      | inr stays ↦ (after, rw stays (ap (λ t. b ∷ t) same), spaces)
    ]
  where
    both : (p q : Bool) → p && q ≡ true → (p ≡ true) × (q ≡ true)
    both true q h = (refl, h)
    both false q h = cc

    no_bytes : (xs : Bytes) → is_empty xs ≡ true → xs ≡ []
    no_bytes [] h = refl
    no_bytes (x ∷ xs) h = cc

eq_ignore_case-Spells :
    (xs word : Bytes) → All IsLower word → (eq_ignore_case xs word ≡ true) ↔ Spells xs word
unfolding eq_ignore_case
eq_ignore_case-Spells [] [] l = (λ h. tt, λ h. refl)
eq_ignore_case-Spells [] (y ∷ ys) l = (λ h. cc, λ h. absurd h)
eq_ignore_case-Spells (x ∷ xs) [] l = (λ h. cc, λ h. absurd h)
eq_ignore_case-Spells (x ∷ xs) (y ∷ ys) l =
    let letter = same_letter x y l.0 in
    let later = eq_ignore_case-Spells xs ys l.1 in
    elim (Bool-cases (to_lower x == to_lower y)) [
      | inl e ↦ (λ h. (letter.0 e, later.0 (rw e at h)), λ h. rw e (later.1 h.1))
      | inr e ↦ (λ h. let w = rw e at h in cc, λ h. let w = sym e ∙ letter.1 h.0 in cc)
    ]

-- No letter of a spelled word is space.
Spells-solid :
    (xs word : Bytes)
    → All IsLower word
    → Spells xs word
    → All (λ (x : ℕ). is_whitespace x ≡ false) xs
Spells-solid [] [] l h = tt
Spells-solid [] (y ∷ ys) l h = absurd h
Spells-solid (x ∷ xs) [] l h = absurd h
Spells-solid (x ∷ xs) (y ∷ ys) l h = (letter-is_whitespace x y l.0 h.0, Spells-solid xs ys l.1 h.1)

trim_start-spaces :
    (before bytes : Bytes) → All IsSpace before → trim_start (before ++ bytes) ≡ trim_start bytes
trim_start-spaces [] bytes h = refl
trim_start-spaces (b ∷ before) bytes h =
    rw (IsSpace-is_whitespace b h.0) (trim_start-spaces before bytes h.1)

trim_end-spaces : (after : Bytes) → All IsSpace after → trim_end after ≡ []
trim_end-spaces [] h = refl
trim_end-spaces (b ∷ after) h = rw (trim_end-spaces after h.1, IsSpace-is_whitespace b h.0) refl

trim_end-solid :
    (middle after : Bytes)
    → All (λ (x : ℕ). is_whitespace x ≡ false) middle
    → All IsSpace after
    → trim_end (middle ++ after) ≡ middle
trim_end-solid [] after h k = trim_end-spaces after k
trim_end-solid (x ∷ middle) after h k =
    rw (trim_end-solid middle after h.1 k, h.0) (kept (is_empty middle))
  where
    kept : (b : Bool) → (if b && false then [] else x ∷ middle) ≡ x ∷ middle
    kept true = refl
    kept false = refl

trim_ascii-IsWord :
    (y : ℕ) (word : Bytes)
    → All IsLower (y ∷ word)
    → (before middle after : Bytes) → All IsSpace before
    → All IsSpace after
    → Spells middle (y ∷ word)
    → trim_ascii (before ++ (middle ++ after)) ≡ middle
unfolding trim_ascii
trim_ascii-IsWord y word l before [] after b a h = absurd h
trim_ascii-IsWord y word l before (x ∷ middle) after b a h =
    let solid = Spells-solid (x ∷ middle) (y ∷ word) l h in
    let starts : trim_start (x ∷ (middle ++ after)) ≡ x ∷ (middle ++ after) = rw solid.0 refl in
    ap trim_end (trim_start-spaces before (x ∷ (middle ++ after)) b ∙ starts)
    ∙ trim_end-solid (x ∷ middle) after solid a

-- The code's test for a word: trimmed, and compared without case.
pub IsWord-iff :
    (bytes : Bytes) (y : ℕ) (word : Bytes)
    → All IsLower (y ∷ word)
    → (eq_ignore_case (trim_ascii bytes) (y ∷ word) ≡ true) ↔ IsWord bytes (y ∷ word)
unfolding trim_ascii
IsWord-iff bytes y word l = (
  λ h.
      let (before, cut, spaces) = trim_start-cut bytes in
      let (after, cut', spaces') = trim_end-cut (trim_start bytes) in
      record {
        before = before;
        middle = trim_ascii bytes;
        after = after;
        same = cut ∙ ap (λ t. before ++ t) cut';
        space_before = spaces;
        space_after = spaces';
        spelled = (eq_ignore_case-Spells (trim_ascii bytes) (y ∷ word) l).0 h;
      },
  λ w.
      let trimmed =
        trim_ascii-IsWord y word l w.before w.middle w.after w.space_before w.space_after
          w.spelled in
      ap (λ t. eq_ignore_case t (y ∷ word)) (ap trim_ascii w.same ∙ trimmed)
      ∙ (eq_ignore_case-Spells w.middle (y ∷ word) l).1 w.spelled,
)
