-- ===== src/Network/Chunks.antt =====
-- What `read_raw_request` of src/network.rs returns, for every way to cut the bytes into reads.
use mathlib.Core.List.{append_assoc, append-nil}
use gput.Base.{
  ℕ, ◌≤◌, ◌<◌, max, ◌≡◌, inl, inr, refl, sym, ap, ◌∙◌, false, none, some, List, [], ◌∷◌, ◌++◌,
  arith, length, take, drop, length-take, take-append_left, drop-append_left, take-append-drop,
}
use gput.Router.Body.{Bytes, is_empty}
use gput.Network.Framing.{
  Read, received, too_large, incomplete, Framed, closed, request, failed, Reading,
  complete_header_len, settled, at_end, read_raw_request,
}
use gput.Network.Whole.{
  joined, reads_of, AreRead, complete_header_len-append, complete_header_len-within, framed, beyond,
  full, short, settles, settled-request, settled-large, settled-full, settled-short, settled-append,
}

-- The call ends as `end` says; what it has read and not returned, and what it has not read, are the
-- bytes `left` and the reads behind them.
pub record Cut (end : Framed) (left : Bytes) (after : List Read) (out : Reading) : Type 0 where
  pub ended : out.framed ≡ end
  pub rest : List Bytes
  pub unread : out.reads ≡ reads_of rest ++ after
  pub kept : out.pending ++ joined rest ≡ left
  pub are_read : AreRead rest

read_raw_request-settled :
    (max : ℕ) (pending : Bytes) (reads : List Read) (out : Framed × Bytes)
    → settled max pending ≡ some out
    → read_raw_request max pending reads ≡ record { framed = out.0; pending = out.1; reads = reads }
unfolding read_raw_request
read_raw_request-settled max pending [] out h = rw (h, read_raw_request) refl
read_raw_request-settled max pending (r ∷ reads) out h = rw (h, read_raw_request) refl

read_raw_request-received :
    (max : ℕ) (pending c : Bytes) (reads : List Read)
    → settled max pending ≡ none
    → is_empty c ≡ false
    → read_raw_request max pending (received c ∷ reads) ≡ read_raw_request max (pending ++ c) reads
unfolding read_raw_request
read_raw_request-received max pending [] reads h k = cc
read_raw_request-received max pending (b ∷ c) reads h k = rw (h, read_raw_request) refl

read_raw_request-end :
    (max : ℕ) (pending : Bytes) (reads : List Read)
    → settled max pending ≡ none
    → read_raw_request max pending (received [] ∷ reads)
      ≡ record { framed = at_end pending; pending = pending; reads = reads }
unfolding read_raw_request
read_raw_request-end max pending reads h = rw (h, read_raw_request) refl

-- Where the bytes that arrive settle the call, it ends that way after any reads.
pub read_raw_request-Cut :
    (max : ℕ) (pending : Bytes) (chunks : List Bytes) (after : List Read) (out : Framed × Bytes)
    → AreRead chunks
    → settled max (pending ++ joined chunks) ≡ some out
    → Cut out.0 out.1 after (read_raw_request max pending (reads_of chunks ++ after))
read_raw_request-Cut max pending [] after out parts h =
    let now : settled max pending ≡ some out = ap (settled max) (sym (append-nil pending)) ∙ h in
    rw (read_raw_request-settled max pending after out now)
      (record { ended = refl; rest = []; unread = refl; kept = append-nil out.1; are_read = tt })
read_raw_request-Cut max pending (c ∷ chunks) after out parts h =
    elim (settled-append max pending (c ++ joined chunks)) [
      | inl not_yet ↦
          let whole = ap (settled max) (append_assoc pending c (joined chunks)) ∙ h in
          rw (read_raw_request-received max pending c (reads_of chunks ++ after) not_yet parts.0)
            (read_raw_request-Cut max (pending ++ c) chunks after out parts.1 whole)
      | inr (now, early, late) ↦
          let same = some_injective _ _ (sym late ∙ h) in
          rw
            (read_raw_request-settled max pending (received c ∷ reads_of chunks ++ after) now early)
            (record {
              ended = ap (λ (o : Framed × Bytes). o.0) same;
              rest = c ∷ chunks;
              unread = refl;
              kept = ap (λ (o : Framed × Bytes). o.1) same;
              are_read = parts;
            })
    ]
  where
    some_injective : (a b : Framed × Bytes) → some a ≡ some b → a ≡ b
    some_injective a b h = ap (λ o. elim o as (λ _. Framed × Bytes) [ some x ↦ x | none ↦ a ]) h

-- Where they settle nothing, the call goes on with all of them.
pub read_raw_request-continues :
    (max : ℕ) (pending : Bytes) (chunks : List Bytes) (after : List Read)
    → AreRead chunks
    → settled max (pending ++ joined chunks) ≡ none
    → read_raw_request max pending (reads_of chunks ++ after)
      ≡ read_raw_request max (pending ++ joined chunks) after
read_raw_request-continues max pending [] after parts h =
    ap (λ p. read_raw_request max p after) (sym (append-nil pending))
read_raw_request-continues max pending (c ∷ chunks) after parts h =
    elim (settled-append max pending (c ++ joined chunks)) [
      | inl not_yet ↦
          let assoc = append_assoc pending c (joined chunks) in
          read_raw_request-received max pending c (reads_of chunks ++ after) not_yet parts.0
          ∙ read_raw_request-continues max (pending ++ c) chunks after parts.1
              (ap (settled max) assoc ∙ h)
          ∙ ap (λ p. read_raw_request max p after) assoc
      | inr (now, early, late) ↦ let w = sym h ∙ late in cc
    ]

-- A request whose end is its first blank line, and which fits, is returned as it is, however it and the
-- bytes behind it are cut into reads; the bytes behind it are all kept, pending or unread.
pub read_raw_request-request :
    (max : ℕ) (pending : Bytes) (chunks : List Bytes) (after : List Read) (wire left : Bytes)
    → AreRead chunks
    → complete_header_len wire ≡ some (length wire)
    → length wire ≤ max
    → pending ++ joined chunks ≡ wire ++ left
    → Cut (request wire) left after (read_raw_request max pending (reads_of chunks ++ after))
read_raw_request-request max pending chunks after wire left parts whole fits same =
    let found = complete_header_len-append wire left (length wire) whole in
    read_raw_request-Cut max pending chunks after (request wire, left) parts
      (ap (settled max) same
        ∙ settled-request max (wire ++ left) (length wire) found fits
        ∙ ap some (λ i. (request (take-append_left wire left i), drop-append_left wire left i)))

-- If the first `max` bytes do not hold the end of a request, and there are that many, the request is
-- refused as too large, however they are cut into reads.
pub read_raw_request-too_large :
    (max : ℕ) (pending : Bytes) (chunks : List Bytes) (after : List Read)
    → AreRead chunks
    → max ≤ length (pending ++ joined chunks)
    → complete_header_len (take max (pending ++ joined chunks)) ≡ none
    → (read_raw_request max pending (reads_of chunks ++ after)).framed ≡ failed too_large
read_raw_request-too_large max pending chunks after parts long absent =
    let wire = pending ++ joined chunks in
    Cut.ended (
      read_raw_request-Cut max pending chunks after (failed too_large, wire) parts
        (settled_too_large max wire long absent))
  where
    settled_too_large :
        (max : ℕ) (wire : Bytes)
        → max ≤ length wire
        → complete_header_len (take max wire) ≡ none
        → settled max wire ≡ some (failed too_large, wire)
    settled_too_large max wire long absent = elim (settles max wire) [
      | framed n found k ↦
          let inside =
            complete_header_len-within (take max wire) (drop max wire) n
              (ap complete_header_len (take-append-drop max wire) ∙ found)
              (omega (arith, length-take max wire, long, k)) in
          let w = sym absent ∙ inside in cc
      | beyond n found k ↦ settled-large max wire n found k
      | full none_yet k ↦ settled-full max wire none_yet k
      | short none_yet k ↦ absurd (omega (arith, k, long))
    ]

-- Where they settle nothing and the stream ends, the call ends by its test on all of them.
pub read_raw_request-ends :
    (max : ℕ) (pending : Bytes) (chunks : List Bytes) (after : List Read)
    → AreRead chunks
    → length (pending ++ joined chunks) < max
    → complete_header_len (pending ++ joined chunks) ≡ none
    → (read_raw_request max pending (reads_of chunks ++ received [] ∷ after)).framed
      ≡ at_end (pending ++ joined chunks)
read_raw_request-ends max pending chunks after parts few absent =
    let not_yet = settled-short max (pending ++ joined chunks) absent few in
    ap Reading.framed (
      read_raw_request-continues max pending chunks (received [] ∷ after) parts not_yet
      ∙ read_raw_request-end max (pending ++ joined chunks) after not_yet)

-- The stream has ended behind these bytes: it is closed if there are none, else a request is cut off.
pub data StreamEnds : Bytes → Framed → Type 0 where
  no_bytes : StreamEnds [] closed
  cut_off : (byte : ℕ) (bytes : Bytes) → StreamEnds (byte ∷ bytes) (failed incomplete)

-- Bytes without the end of a request, fewer than `max`, before the end of the stream, however they
-- are cut into reads: the call returns that there is no request if there are no bytes, and else the
-- error of an incomplete request.
pub read_raw_request-at_end :
    (max : ℕ) (pending : Bytes) (chunks : List Bytes) (after : List Read)
    → AreRead chunks
    → length (pending ++ joined chunks) < max
    → complete_header_len (pending ++ joined chunks) ≡ none
    → StreamEnds
        (pending ++ joined chunks)
        (read_raw_request max pending (reads_of chunks ++ received [] ∷ after)).framed
unfolding at_end
read_raw_request-at_end max pending chunks after parts few absent =
    rw (read_raw_request-ends max pending chunks after parts few absent)
      (ends (pending ++ joined chunks))
  where
    ends : (wire : Bytes) → StreamEnds wire (at_end wire)
    ends [] = no_bytes
    ends (byte ∷ bytes) = cut_off byte bytes
