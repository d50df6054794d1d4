-- ===== src/Protocol/Chunks/Streams.antt =====
-- What a tracker admits of one request is a stream: numbered from 1, and closed by its last chunk.
use myference.Prelude.{
  ℕ, ◌+◌, ◌<◌, String, true, false, Option, none, some, List, [], ◌∷◌, ◌≡◌, ◌⊎◌, inl, inr,
  Bool-cases, Option-cases, ◌∙◌, refl, str_eq, eq_iff, arith, keep,
}
use myference.Prelude.Words.{u64_mod}
use myference.Protocol.Messages.{MessageError, OutputChunk, validate_output_chunk}
use myference.Protocol.Chunks.{ChunkTracker, new_chunk_tracker, accept}

-- The chunks that are admitted, in order.
abbrev admit : Option MessageError → OutputChunk → List OutputChunk → List OutputChunk
admit none c rest = c ∷ rest
admit (some _) c rest = rest

unfoldable pub admitted : ChunkTracker → List OutputChunk → List OutputChunk
admitted t [] = []
admitted t (c ∷ cs) = let (t', e) = accept t c in admit e c (admitted t' cs)

abbrev pub of_request : String → List OutputChunk → List OutputChunk
of_request r = keep (λ c. str_eq c.request_id r)

-- The chunks are numbered from `n + 1`, and none follows one that is done.
abbrev pub IsStream : ℕ → List OutputChunk → Type 0
IsStream n [] = Unit
IsStream n (c ∷ cs) = (c.sequence ≡ n + 1) × ((c.done ≡ false) ⊎ (cs ≡ [])) × IsStream (n + 1) cs

-- A valid chunk is not numbered 0.
sequence_positive : (c : OutputChunk) → validate_output_chunk c ≡ none → 0 < c.sequence
unfolding validate_output_chunk
sequence_positive c h = ground arith

-- What one chunk does to the state of request `r`: nothing, or it is the next of its stream.
data Effect (r : String) (t : ChunkTracker) (c : OutputChunk) : Type 0 where
  passed_over :
      of_request r (admit (accept t c).1 c []) ≡ []
      → (accept t c).0.last r ≡ t.last r
      → (accept t c).0.closed r ≡ t.closed r
      → Effect r t c
  taken :
      t.closed r ≡ false
      → (accept t c).1 ≡ none
      → str_eq c.request_id r ≡ true
      → c.sequence ≡ t.last r + 1
      → (accept t c).0.last r ≡ t.last r + 1
      → t.last r + 1 < u64_mod
      → (accept t c).0.closed r ≡ c.done
      → Effect r t c

module _ (r : String) (t : ChunkTracker) (c : OutputChunk) where
  accept-Effect : t.last r < u64_mod → Effect r t c
  unfolding accept
  accept-Effect bound = elim (Option-cases (accept t c).1) [
    | inr (e, refused) ↦
        Effect.passed_over (ground (arith, eq_iff c.request_id r))
          (ground (arith, eq_iff c.request_id r)) (ground (arith, eq_iff c.request_id r))
    | inl fine ↦ elim (Bool-cases (str_eq c.request_id r)) [
      | inr other ↦
          Effect.passed_over (ground (arith, eq_iff c.request_id r))
            (ground (arith, eq_iff c.request_id r)) (ground (arith, eq_iff c.request_id r))
      | inl same ↦
          Effect.taken (ground (arith, eq_iff c.request_id r)) fine same
            (ground (arith, eq_iff c.request_id r, sequence_positive c))
            (ground (arith, eq_iff c.request_id r, sequence_positive c))
            (ground (arith, eq_iff c.request_id r, sequence_positive c))
            (ground (arith, eq_iff c.request_id r))
    ]
  ]

abbrev FromHere : String → ChunkTracker → List OutputChunk → Type 0
FromHere r t cs =
    (t.closed r ≡ true → of_request r (admitted t cs) ≡ [])
    × (t.closed r ≡ false → IsStream (t.last r) (of_request r (admitted t cs)))

step_passed_over :
    (r : String) (t : ChunkTracker) (c : OutputChunk) (cs : List OutputChunk)
    → of_request r (admit (accept t c).1 c []) ≡ []
    → of_request r (admitted t (c ∷ cs)) ≡ of_request r (admitted (accept t c).0 cs)
unfolding admitted
step_passed_over r t c cs h = ground arith

step_taken :
    (r : String) (t : ChunkTracker) (c : OutputChunk) (cs : List OutputChunk)
    → (accept t c).1 ≡ none
    → str_eq c.request_id r ≡ true
    → of_request r (admitted t (c ∷ cs)) ≡ c ∷ of_request r (admitted (accept t c).0 cs)
unfolding admitted
step_taken r t c cs h k = ground arith

stream_from :
    (r : String) (t : ChunkTracker) (cs : List OutputChunk) → t.last r < u64_mod → FromHere r t cs
unfolding admitted
stream_from r t [] bound = (λ _. refl, λ _. tt)
stream_from r t (c ∷ cs) bound =
    let next = stream_from r (accept t c).0 cs in
    elim (accept-Effect r t c bound) [
      | Effect.passed_over none_taken same_last same_closed ↦
          let (shut, open_stream) = next (rw same_last bound) in
          (
            λ h. rw (step_passed_over r t c cs none_taken) (shut (same_closed ∙ h)),
            λ h.
                rw (step_passed_over r t c cs none_taken)
                  (rw same_last at (open_stream (same_closed ∙ h))),
          )
      | Effect.taken was_open fine same numbered new_last small new_closed ↦
          let (shut, open_stream) = next (rw new_last small) in
          (
            λ h. cc,
            λ _. rw (step_taken r t c cs fine same) (
              numbered,
              elim (Bool-cases c.done) [ inl d ↦ inr (shut (new_closed ∙ d)) | inr d ↦ inl d ],
              elim (Bool-cases c.done) [
                | inl d ↦ rw (shut (new_closed ∙ d)) tt
                | inr d ↦ rw new_last at (open_stream (new_closed ∙ d))
              ],
            ),
          )
    ]

-- Whatever chunks arrive for whatever requests, those of one request that are admitted are
-- numbered 1, 2, 3, … without a gap or a repetition, and none follows one that is done.
pub admitted-IsStream :
    (r : String) (chunks : List OutputChunk)
    → IsStream 0 (of_request r (admitted new_chunk_tracker chunks))
unfolding new_chunk_tracker
admitted-IsStream r chunks = (stream_from r new_chunk_tracker chunks (omega arith)).1 refl
