-- ===== src/Packet/Wave/Fill/State.antt =====
-- What holds of a wave while the loops of src/packet/mod.rs fill it: its words, the flows in it, and
-- the indices that wait.

use gput.Base.{
  ℕ, ◌+◌, ◌≤◌, ◌≡◌, ◌↔◌, ◌⊎◌, inl, inr, refl, Option, some, List, [], ◌∷◌, ◌++◌, arith, length,
}
use gput.Packet.Wire.Header.{FlowKey}
use gput.Packet.Wave.FlowSet.Members.{Holds, IsValid, used}
use gput.Packet.Wave.Fill.{words_of, Limits, Filling}

-- How the indices `all` are divided between a wave and those that wait; both keep the order.
pub data Splits : List ℕ → List ℕ → List ℕ → Type 0 where
  nothing : Splits [] [] []
  to_wave :
      {wave waiting all : List ℕ} (i : ℕ)
      → Splits wave waiting all
      → Splits (wave ++ i ∷ []) waiting (all ++ i ∷ [])
  to_waiting :
      {wave waiting all : List ℕ} (i : ℕ)
      → Splits wave waiting all
      → Splits wave (waiting ++ i ∷ []) (all ++ i ∷ [])

module _ (key_at : ℕ → Option FlowKey) where
  -- A packet of the wave belongs to the flow `k`.
  abbrev pub Carries : FlowKey → List ℕ → Type 0
  Carries k [] = ⊥
  Carries k (i ∷ wave) = (key_at i ≡ some k) ⊎ Carries k wave

  abbrev pub OneEach : List ℕ → Type 0
  OneEach [] = Unit
  OneEach (i ∷ wave) = ((k : FlowKey) → key_at i ≡ some k → ¬ Carries k wave) × OneEach wave

  pub Carries-snoc :
      (k : FlowKey) (wave : List ℕ) (i : ℕ)
      → Carries k (wave ++ i ∷ []) ↔ (Carries k wave ⊎ (key_at i ≡ some k))
  Carries-snoc k [] i = (
    λ c. elim c [ inl e ↦ inr e | inr n ↦ absurd n ],
    λ c. elim c [ inl n ↦ absurd n | inr e ↦ inl e ],
  )
  Carries-snoc k (j ∷ wave) i =
      let rest = Carries-snoc k wave i in
      (
        λ c. elim c [
          | inl e ↦ inl (inl e)
          | inr later ↦ elim (rest.0 later) [ inl c' ↦ inl (inr c') | inr e ↦ inr e ]
        ],
        λ c. elim c [
          | inl first ↦ elim first [ inl e ↦ inl e | inr c' ↦ inr (rest.1 (inl c')) ]
          | inr e ↦ inr (rest.1 (inr e))
        ],
      )

  pub OneEach-snoc :
      (wave : List ℕ) (i : ℕ)
      → OneEach wave
      → ((k : FlowKey) → key_at i ≡ some k → ¬ Carries k wave)
      → OneEach (wave ++ i ∷ [])
  OneEach-snoc [] i h new = (λ k e n. n, tt)
  OneEach-snoc (j ∷ wave) i h new = (
    λ k e c. elim ((Carries-snoc k wave i).0 c) [ inl c' ↦ h.0 k e c' | inr e' ↦ new k e' (inl e) ],
    OneEach-snoc wave i h.1 (λ k e c. new k e (inr c)),
  )

-- The words that bytes take: four to a word, and a word for those that are left.
abbrev pub count_words : List ℕ → ℕ
count_words [] = 0
count_words (a ∷ []) = 1
count_words (a ∷ b ∷ []) = 1
count_words (a ∷ b ∷ c ∷ []) = 1
count_words (a ∷ b ∷ c ∷ d ∷ bytes) = 1 + count_words bytes

pub words_of-count_words :
    (bytes : List ℕ) → words_of (record { bytes = bytes }) ≡ count_words bytes
words_of-count_words [] = refl
words_of-count_words (a ∷ []) = refl
words_of-count_words (a ∷ b ∷ []) = refl
words_of-count_words (a ∷ b ∷ c ∷ []) = refl
words_of-count_words (a ∷ b ∷ c ∷ d ∷ bytes) = omega (arith, words_of-count_words bytes)

-- The words of all packets of a wave, each counted by itself.
abbrev pub wave_words : (ℕ → ℕ) → List ℕ → ℕ
wave_words words_at [] = 0
wave_words words_at (i ∷ wave) = words_at i + wave_words words_at wave

pub wave_words-snoc :
    (words_at : ℕ → ℕ) (wave : List ℕ) (i : ℕ)
    → wave_words words_at (wave ++ i ∷ []) ≡ wave_words words_at wave + words_at i
wave_words-snoc words_at [] i = omega arith
wave_words-snoc words_at (j ∷ wave) i = omega (arith, wave_words-snoc words_at wave i)

-- The state of the loops after the indices `done`.
pub record Good (limits : Limits) (words_at : ℕ → ℕ) (key_at : ℕ → Option FlowKey) (capacity : ℕ)
    (done : List ℕ) (filling : Filling) : Type 0 where
  pub valid : IsValid filling.seen
  pub held : (k : FlowKey) → Holds filling.seen k ↔ Carries key_at k filling.wave
  pub one_each : OneEach key_at filling.wave
  pub small : length filling.wave ≤ limits.max_batch_size
  pub counted : filling.input_words ≡ wave_words words_at filling.wave
  pub fits : wave_words words_at filling.wave ≤ limits.max_input_words
  pub split : Splits filling.wave filling.deferred done
  pub taken : used filling.seen.generation filling.seen.generations ≤ length done
  pub slots : length filling.seen.keys ≡ capacity
