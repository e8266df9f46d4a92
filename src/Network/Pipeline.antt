-- ===== src/Network/Pipeline.antt =====
-- A connection of src/network.rs that sends whole requests, one behind the other.

use gput.Base.{
  ℕ, suc, ◌+◌, ◌≤◌, ◌<◌, ◌≡◌, inl, inr, refl, ap, ◌∙◌, Bool, true, false, none, some, List, [], ◌∷◌,
  ◌++◌, arith, if◌then◌else◌, length, All, Bool-cases,
}
use gput.Base.Text.{find_window}
use gput.Router.Body.{Bytes}
use gput.Network.Framing.{
  Read, received, request, closed, complete_header_len, at_end, read_raw_request,
}
use gput.Network.Close.{connection_should_close}
use gput.Network.Connection.{
  Submitted, Connection, Socket, shut_down, shutdown_failed, shutdown, reply, after_write,
  serve_requests, handle_connection,
}
use gput.Network.Whole.{joined, reads_of, AreRead}
use gput.Network.Chunks.{read_raw_request-request, read_raw_request-ends}

-- A request that ends at its first blank line and fits.
pub record IsRequest (max : ℕ) (wire : Bytes) : Type 0 where
  pub whole : complete_header_len wire ≡ some (length wire)
  pub fits : length wire ≤ max

append_empty : (xs ys : Bytes) → xs ++ ys ≡ [] → (xs ≡ []) × (ys ≡ [])
append_empty [] ys h = (refl, h)
append_empty (x ∷ xs) ys h = cc

no_chunks : (chunks : List Bytes) → AreRead chunks → joined chunks ≡ [] → chunks ≡ []
no_chunks [] parts h = refl
no_chunks ([] ∷ chunks) parts h = let w = parts.0 in cc
no_chunks ((b ∷ c) ∷ chunks) parts h = cc

no_request : complete_header_len [] ≡ none
unfolding complete_header_len find_window
no_request = refl

nothing_left : at_end [] ≡ closed
unfolding at_end
nothing_left = refl

module _ (submit : ℕ → Bytes → Submitted) (socket : Socket) (max : ℕ) where
  -- The replies to the requests in order, up to the first that closes the connection.
  abbrev pub replies : ℕ → List Bytes → List Bytes
  replies served [] = []
  replies served (r ∷ rs) =
      let rest = replies (served + 1) rs in
      reply (submit served r) ∷ (if connection_should_close r then [] else rest)

  serve_requests-closes :
      (fuel served : ℕ) (pending : Bytes) (reads : List Read) (r : Bytes)
      → (read_raw_request max pending reads).framed ≡ request r
      → socket.write_succeeds served ≡ true
      → connection_should_close r ≡ true
      → serve_requests submit socket (suc fuel) max served pending reads
        ≡ record { written = reply (submit served r) ∷ []; ending = shutdown socket }
  unfolding serve_requests
  serve_requests-closes fuel served pending reads r h w c = rw (h, serve_requests, w, c) refl

  serve_requests-continues :
      (fuel served : ℕ) (pending : Bytes) (reads : List Read) (r : Bytes)
      → (read_raw_request max pending reads).framed ≡ request r
      → socket.write_succeeds served ≡ true
      → connection_should_close r ≡ false
      → serve_requests submit socket (suc fuel) max served pending reads
        ≡ after_write (reply (submit served r)) (
            serve_requests submit socket fuel max
              (served + 1)
              (read_raw_request max pending reads).pending
              (read_raw_request max pending reads).reads)
  unfolding serve_requests
  serve_requests-continues fuel served pending reads r h w c = rw (h, serve_requests, w, c) refl

  -- The loop answers whole requests in order.
  serve_requests-replies :
      (served : ℕ) (pending : Bytes) (chunks : List Bytes) (requests : List Bytes)
      → 0 < max
      → ((k : ℕ) → socket.write_succeeds k ≡ true)
      → All (IsRequest max) requests
      → AreRead chunks
      → pending ++ joined chunks ≡ joined requests
      → serve_requests submit socket
          (suc (length requests))
          max
          served
          pending
          (reads_of chunks ++ received [] ∷ [])
        ≡ record { written = replies served requests; ending = shutdown socket }
  unfolding serve_requests
  serve_requests-replies served pending chunks [] pos writes whole parts same =
      let (none_pending, none_joined) = append_empty pending (joined chunks) same in
      let ends =
        read_raw_request-ends max pending chunks [] parts
          (let e : length (pending ++ joined chunks) ≡ 0 = ap length same in omega (arith, e, pos))
          (ap complete_header_len same ∙ no_request)
        ∙ ap at_end same
        ∙ nothing_left in
      rw (ends, serve_requests) refl
  serve_requests-replies served pending chunks (r ∷ requests) pos writes whole parts same =
      let cut =
        read_raw_request-request max pending chunks (received [] ∷ []) r (joined requests) parts
          whole.0.whole whole.0.fits same in
      let rest =
        serve_requests-replies (served + 1) _ cut.rest requests pos writes whole.1 cut.are_read
          cut.kept in
      let n = suc (length requests) in
      let reading = read_raw_request max pending (reads_of chunks ++ received [] ∷ []) in
      elim (Bool-cases (connection_should_close r)) [
        | inl closes ↦
            serve_requests-closes n served pending _ r cut.ended (writes served) closes
            ∙ rw closes refl
        | inr stays ↦
            serve_requests-continues n served pending _ r cut.ended (writes served) stays
            ∙ ap
                (λ reads.
                  after_write (reply (submit served r))
                    (serve_requests submit socket n max (served + 1) reading.pending reads))
                cut.unread
            ∙ ap (after_write (reply (submit served r))) rest
            ∙ rw stays refl
      ]

  -- Where `set_nodelay` and every write succeed and the limit is not 0: requests that each end at
  -- their first blank line and fit the limit, that follow each other on a connection, before the end
  -- of the stream, cut into reads in any way, are each answered by the batcher's reply, in order, up
  -- to the first that asks to close; then the connection is shut down, with the error of `shutdown`
  -- if that fails. One round of fuel for each request and one for the end of the stream are enough.
  pub handle_connection-replies :
      (chunks : List Bytes) (requests : List Bytes)
      → 0 < max
      → socket.set_nodelay_succeeds ≡ true
      → ((k : ℕ) → socket.write_succeeds k ≡ true)
      → All (IsRequest max) requests
      → AreRead chunks
      → joined chunks ≡ joined requests
      → handle_connection submit socket
          (suc (length requests))
          max
          (reads_of chunks ++ received [] ∷ [])
        ≡ record {
          written = replies 0 requests;
          ending = if socket.shutdown_succeeds then shut_down else shutdown_failed;
        }
  unfolding handle_connection
  handle_connection-replies chunks requests pos nodelay writes whole parts same =
      goes_on socket.set_nodelay_succeeds _ _ nodelay
      ∙ serve_requests-replies 0 [] chunks requests pos writes whole parts same
    where
      goes_on : (b : Bool) (c d : Connection) → b ≡ true → (if b then c else d) ≡ c
      goes_on true c d h = refl
      goes_on false c d h = cc
