-- ===== src/Stream/Running.antt =====
-- The loop `Process`.
use envoy_mcp_openapi_proces.Common.{
  Bool, Bool-cases, Bytes, List, Result-cases, [], ap, append-nil, append_assoc, arith, false, inl,
  inr, length, length-append, ok, refl, suc, sym, true, ℕ, ◌++◌, ◌==◌, ◌∙◌, ◌∷◌, ◌≡◌, ◌≤◌, ◌⊎◌,
}
use envoy_mcp_openapi_proces.Handler.{ExtProcServer}
use envoy_mcp_openapi_proces.Protocol.{Codecs}
use envoy_mcp_openapi_proces.Stream.Buffering.{handle_all}
use envoy_mcp_openapi_proces.Stream.Machine.{
  ProcessingRequest, Received, Run, State, Step, awaiting_request_headers, closed, handle, process,
  process_from, receive_error, received_message, send_all, send_failed, step_to, stream_closed,
}
use envoy_mcp_openapi_proces.Wire.{ProcessingResponse}

abbrev pub received_all : List ProcessingRequest → List Received → List Received
received_all [] more = more
received_all (req ∷ reqs) more = received_message req ∷ received_all reqs more

sent_next :
    (fails : ℕ → Bool) (sent : List ProcessingResponse) (rep : ProcessingResponse) (n : ℕ)
    → fails n ≡ true
    → fails (length sent) ≡ false
    → length sent ≤ n
    → length (sent ++ rep ∷ []) ≤ n
sent_next fails sent rep n e passing b = elim (Bool-cases (length sent == n)) [
  | inl same ↦ let eq : length sent ≡ n = ground arith in cc (e, passing, eq)
  | inr other ↦ rw (length-append sent (rep ∷ [])) (ground arith)
]

send_all_bound :
    (fails : ℕ → Bool) (sent reps : List ProcessingResponse) (n : ℕ)
    → fails n ≡ true
    → length sent ≤ n
    → (((send_all fails sent reps).1 ≡ true) × (length (send_all fails sent reps).0 ≤ n))
      ⊎ (((send_all fails sent reps).1 ≡ false) × (length (send_all fails sent reps).0 ≤ suc n))
unfolding send_all
send_all_bound fails sent [] n e b = inl (refl, b)
send_all_bound fails sent (rep ∷ reps) n e b = elim (Bool-cases (fails (length sent))) [
  | inl failing ↦ rw failing (inr (refl, rw (length-append sent (rep ∷ [])) (ground arith)))
  | inr passing ↦
      rw passing
        (send_all_bound fails (sent ++ rep ∷ []) reps n e (sent_next fails sent rep n e passing b))
]

send_all_done :
    (fails : ℕ → Bool)
    → ((n : ℕ) → fails n ≡ false)
    → (sent reps : List ProcessingResponse) → send_all fails sent reps ≡ (sent ++ reps, true)
unfolding send_all
send_all_done fails never sent [] = rw append-nil
send_all_done fails never sent (rep ∷ reps) =
    rw (never (length sent), send_all_done fails never (sent ++ rep ∷ []) reps) (rw append_assoc)

stops_at :
    (sent : List ProcessingResponse) (n : ℕ)
    → length sent ≤ suc n
    → (length sent ≤ n) ⊎ ((length sent ≡ suc n) × (send_failed ≡ send_failed))
stops_at sent n b = elim (Bool-cases (length sent == suc n)) [
  | inl last ↦ inr (ground arith, refl)
  | inr before ↦ inl (ground arith)
]

step_responses :
    (st : State) (buf : Bytes) (reps : List ProcessingResponse) (s : Step)
    → step_to st buf reps ≡ ok s
    → reps ≡ s.responses
step_responses st buf reps s e = cc

module _ (k : Codecs) (server : ExtProcServer) (fails : ℕ → Bool) where
  -- At most `n` calls of `Send`, or `n + 1` of which the last ended the loop.
  abbrev Stops : ℕ → Run → Type 0
  Stops n r = (length r.sent ≤ n) ⊎ ((length r.sent ≡ suc n) × (r.exit ≡ send_failed))

  process_from-Stops :
      (st : State) (buf : Bytes) (sent : List ProcessingResponse) (received : List Received) (n : ℕ)
      → fails n ≡ true
      → length sent ≤ n
      → Stops n (process_from k server fails st buf sent received)
  unfolding process_from
  process_from-Stops st buf sent [] n e b = inl b
  process_from-Stops st buf sent (stream_closed ∷ more) n e b = inl b
  process_from-Stops st buf sent (receive_error ∷ more) n e b = inl b
  process_from-Stops st buf sent (received_message req ∷ more) n e b =
      elim (Result-cases (handle k server st buf req)) [
        | inl (v, refused) ↦ rw (refused, process_from) (inl b)
        | inr (s, handled) ↦
            rw (handled, process_from)
              (elim (send_all_bound fails sent s.responses n e b) [
                | inl (done, bound) ↦ rw done (process_from-Stops s.next s.buf _ more n e bound)
                | inr (stopped, bound) ↦ rw stopped (stops_at _ n bound)
              ])
      ]

  process_from_closes :
      ((n : ℕ) → fails n ≡ false)
      → (reqs : List ProcessingRequest) (st : State) (buf : Bytes) (sent : List ProcessingResponse)
        (more : List Received) (s : Step)
      → handle_all k server st buf reqs ≡ ok s
      → process_from k server fails st buf sent (received_all reqs (stream_closed ∷ more))
        ≡ record { sent = sent ++ s.responses; exit = closed }
  unfolding process_from handle_all
  process_from_closes never [] st buf sent more s e =
      ap (λ r. record { sent = r; exit = closed })
        (sym (append-nil sent) ∙ ap (λ r. sent ++ r) (step_responses st buf [] s e))
  process_from_closes never (req ∷ reqs) st buf sent more s e =
      elim (Result-cases (handle k server st buf req)) [
        | inl (v, refused) ↦ cc (rw (refused, handle_all) at e)
        | inr (t, handled) ↦ elim (Result-cases (handle_all k server t.next t.buf reqs)) [
          | inl (v, refused) ↦ cc (rw (handled, handle_all, refused) at e)
          | inr (u, rest) ↦
              (let joined : s.responses ≡ t.responses ++ u.responses = sym (
                  step_responses u.next u.buf (t.responses ++ u.responses) s
                    (rw (handled, handle_all, rest) at e)) in
                rw (handled, process_from, send_all_done fails never sent t.responses)
                  (process_from_closes never reqs t.next t.buf (sent ++ t.responses) more u rest
                    ∙ rw (joined, append_assoc) refl))
        ]
      ]

-- Every response is sent, in order. If no `Send` fails and the handlers accept all the messages
-- that are received before the stream is closed, then the loop sends exactly their responses and
-- returns without an error.
pub process_closes :
    (k : Codecs) (server : ExtProcServer) (fails : ℕ → Bool) (reqs : List ProcessingRequest)
    (more : List Received) (s : Step)
    → ((n : ℕ) → fails n ≡ false)
    → handle_all k server awaiting_request_headers [] reqs ≡ ok s
    → process k server fails (received_all reqs (stream_closed ∷ more))
      ≡ record { sent = s.responses; exit = closed }
unfolding process
process_closes k server fails reqs more s never e =
    process_from_closes k server fails never reqs awaiting_request_headers [] [] more s e

-- Nothing is sent after a failure. If the `n`-th call of `Send` would fail, counted from 0, then
-- whatever is received, the loop makes at most `n` calls, or it makes `n + 1` and returns the
-- error of the last.
pub process_send_bound :
    (k : Codecs) (server : ExtProcServer) (fails : ℕ → Bool) (received : List Received) (n : ℕ)
    → fails n ≡ true
    → (length (process k server fails received).sent ≤ n)
      ⊎ ((length (process k server fails received).sent ≡ suc n)
          × ((process k server fails received).exit ≡ send_failed))
unfolding process
process_send_bound k server fails received n e =
    process_from-Stops k server fails awaiting_request_headers [] [] received n e (omega arith)
