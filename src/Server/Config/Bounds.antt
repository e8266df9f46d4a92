-- ===== src/Server/Config/Bounds.antt =====
-- Which configurations `ServerConfig::validate` of src/config.rs accepts.
use native.Mathlib.Nat.{mod-eq_of_lt, mul-le-mul_right}
use gput.Base.{
  ℕ, ◌+◌, ◌-◌, ◌*◌, ◌/◌, ◌^◌, ◌≤◌, ◌<◌, bit_and, ◌≡◌, ◌↔◌, inl, inr, refl, sym, ap, ◌∙◌, true, not,
  arith, ltb, leb, ◌==◌, Error, ok, err, batch_wait_zero, queue_below_batch, request_too_small,
  slot_too_small, no_connections, read_timeout_zero, stride_overflow, request_buffer_overflow,
  response_buffer_overflow, request_slots_too_large, response_slots_too_large, zero_batch_size,
  batch_size_not_u32, Bool-cases, lt→ltb, le→ltb, le→leb, ltb→lt, test_of_ensure, ok_of_ensure,
  ok_of_bind,
}
use gput.Base.Bits.{bit_and_mask}
use gput.Base.Bits.{bit_and-clear_two}
use gput.Server.Config.{
  ServerConfig, max_total_buffer_bytes, checked_mul, round_up_to_word, validate,
}

-- The slots of a batch, each rounded up to a multiple of 4 bytes.
abbrev pub slots_bytes : ℕ → ℕ → ℕ
slots_bytes batch bytes = batch * ((bytes + 3) / 4 * 4)

pub record Accepted {A : Type 0} (config : ServerConfig A) : Type 0 where
  pub some_batch : 0 < config.batch_size
  pub batch_u32 : config.batch_size < 2 ^ 32
  pub waits : 0 < config.batch_wait
  pub queued : config.batch_size ≤ config.queue_depth
  pub request : 16 ≤ config.max_request_bytes
  pub response : 256 ≤ config.response_slot_bytes
  pub connections : 0 < config.max_connections
  pub timeout : 0 < config.read_timeout
  pub requests : slots_bytes config.batch_size config.max_request_bytes ≤ 67_108_864
  pub responses : slots_bytes config.batch_size config.response_slot_bytes ≤ 67_108_864

round_up_to_word-eq :
    (value : ℕ) → value + 3 < 2 ^ 64 → round_up_to_word value ≡ ok ((value + 3) / 4 * 4)
unfolding round_up_to_word
round_up_to_word-eq value small =
    let quarter : (value + 3) / 4 < 2 ^ 62 = omega arith in
    let kept = bit_and_mask 62 ((value + 3) / 4) ∙ mod-eq_of_lt quarter in
    let cleared : bit_and (value + 3) (2 ^ 64 - 1 - 3) ≡ (value + 3) / 4 * 4 =
      bit_and-clear_two (value + 3) (2 ^ 62 - 1) ∙ ap (λ (t : ℕ). t * 4) kept in
    rw (lt→ltb (value + 3) (2 ^ 64) small) (ap ok cleared)

round_up_to_word-overflow :
    (value : ℕ) → 2 ^ 64 ≤ value + 3 → round_up_to_word value ≡ err stride_overflow
unfolding round_up_to_word
round_up_to_word-overflow value large = rw (le→ltb (value + 3) (2 ^ 64) large) refl

stride_of_ok :
    (value stride : ℕ)
    → round_up_to_word value ≡ ok stride
    → (stride ≡ (value + 3) / 4 * 4) × (value + 3 < 2 ^ 64)
stride_of_ok value stride h = elim (Bool-cases (ltb (value + 3) (2 ^ 64))) [
  | inl small ↦
      let s = ltb→lt (value + 3) (2 ^ 64) small in
      let e : ok ((value + 3) / 4 * 4) ≡ ok stride = sym (round_up_to_word-eq value s) ∙ h in
      let same : stride ≡ (value + 3) / 4 * 4 = cc in (same, s)
  | inr large ↦
      let l : 2 ^ 64 ≤ value + 3 = ground arith in let e = round_up_to_word-overflow value l in cc
]

product_of_ok :
    (a b : ℕ) (e : Error) (product : ℕ) → checked_mul a b e ≡ ok product → product ≡ a * b
product_of_ok a b e product h = elim (Bool-cases (ltb (a * b) (2 ^ 64))) [
  | inl small ↦ (let s : ok (a * b) ≡ ok product = sym (rw small refl) ∙ h in cc)
  | inr large ↦ (let s : err e ≡ ok product = sym (rw large refl) ∙ h in cc)
]

module _ {A : Type 0} (config : ServerConfig A) where
  validate_sound : validate config ≡ ok tt → Accepted config
  unfolding validate
  validate_sound h =
      let (t₁, h₁) = ok_of_ensure (not (config.batch_size == 0)) zero_batch_size _ tt h in
      let (t₂, h₂) = ok_of_ensure (leb config.batch_size (2 ^ 32 - 1)) batch_size_not_u32 _ tt h₁ in
      let (t₃, h₃) = ok_of_ensure (not (config.batch_wait == 0)) batch_wait_zero _ tt h₂ in
      let (t₄, h₄) =
        ok_of_ensure (leb config.batch_size config.queue_depth) queue_below_batch _ tt h₃ in
      let (t₅, h₅) = ok_of_ensure (leb 16 config.max_request_bytes) request_too_small _ tt h₄ in
      let (t₆, h₆) = ok_of_ensure (leb 256 config.response_slot_bytes) slot_too_small _ tt h₅ in
      let (t₇, h₇) = ok_of_ensure (not (config.max_connections == 0)) no_connections _ tt h₆ in
      let (t₈, h₈) = ok_of_ensure (not (config.read_timeout == 0)) read_timeout_zero _ tt h₇ in
      let (r, e₁, k₁) = ok_of_bind (round_up_to_word config.max_request_bytes) _ tt h₈ in
      let (s, e₂, k₂) = ok_of_bind (round_up_to_word config.response_slot_bytes) _ tt k₁ in
      let (p, e₃, k₃) =
        ok_of_bind (checked_mul config.batch_size r request_buffer_overflow) _ tt k₂ in
      let (q, e₄, k₄) =
        ok_of_bind (checked_mul config.batch_size s response_buffer_overflow) _ tt k₃ in
      let (t₉, k₅) = ok_of_ensure (leb p max_total_buffer_bytes) request_slots_too_large _ tt k₄ in
      let t₁₀ = test_of_ensure (leb q max_total_buffer_bytes) response_slots_too_large k₅ in
      let requests : p ≡ slots_bytes config.batch_size config.max_request_bytes =
        product_of_ok config.batch_size r request_buffer_overflow p e₃
        ∙ ap (λ t. config.batch_size * t) (stride_of_ok config.max_request_bytes r e₁).0 in
      let responses : q ≡ slots_bytes config.batch_size config.response_slot_bytes =
        product_of_ok config.batch_size s response_buffer_overflow q e₄
        ∙ ap (λ t. config.batch_size * t) (stride_of_ok config.response_slot_bytes s e₂).0 in
      let p_small : p ≤ 67_108_864 = ground (arith, t₉) in
      let q_small : q ≤ 67_108_864 = ground (arith, t₁₀) in
      record {
        some_batch = ground (arith, t₁);
        batch_u32 = ground (arith, t₂);
        waits = ground (arith, t₃);
        queued = ground (arith, t₄);
        request = ground (arith, t₅);
        response = ground (arith, t₆);
        connections = ground (arith, t₇);
        timeout = ground (arith, t₈);
        requests = rw (← requests) p_small;
        responses = rw (← responses) q_small;
      }

  small_of_slots :
      (n : ℕ)
      → 0 < config.batch_size
      → slots_bytes config.batch_size n ≤ 67_108_864
      → n + 3 < 2 ^ 64
  small_of_slots n pos h =
      let more : 1 * ((n + 3) / 4 * 4) ≤ config.batch_size * ((n + 3) / 4 * 4) =
        mul-le-mul_right ((n + 3) / 4 * 4) pos in
      omega (arith, more)

  validate_complete : Accepted config → validate config ≡ ok tt
  unfolding validate
  validate_complete a =
      let r = config.max_request_bytes in
      let s = config.response_slot_bytes in
      let b₁ : not (config.batch_size == 0) ≡ true = ground (arith, a.some_batch) in
      let b₃ : not (config.batch_wait == 0) ≡ true = ground (arith, a.waits) in
      let b₇ : not (config.max_connections == 0) ≡ true = ground (arith, a.connections) in
      let b₈ : not (config.read_timeout == 0) ≡ true = ground (arith, a.timeout) in
      rw (
        b₁,
        le→leb config.batch_size (2 ^ 32 - 1) (omega (arith, a.batch_u32)),
        b₃,
        le→leb config.batch_size config.queue_depth a.queued,
        le→leb 16 r a.request,
        le→leb 256 s a.response,
        b₇,
        b₈,
        round_up_to_word-eq r (small_of_slots r a.some_batch a.requests),
        round_up_to_word-eq s (small_of_slots s a.some_batch a.responses),
        lt→ltb (slots_bytes config.batch_size r) (2 ^ 64) (omega (arith, a.requests)),
        lt→ltb (slots_bytes config.batch_size s) (2 ^ 64) (omega (arith, a.responses)),
        le→leb (slots_bytes config.batch_size r) 67_108_864 a.requests,
        le→leb (slots_bytes config.batch_size s) 67_108_864 a.responses,
      )

  -- A configuration is accepted exactly if its batch size is positive, fits a `u32` and is within
  -- the queue depth, its waits and its connections are positive, its slots have the minimal sizes,
  -- and the slots of a batch, each rounded up to a whole word, take at most 64 MiB both ways.
  pub validate-Accepted : (validate config ≡ ok tt) ↔ Accepted config
  validate-Accepted = (validate_sound, validate_complete)
