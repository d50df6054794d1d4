-- ===== src/Provider/Requests/Leases.antt =====
-- A lease is accepted once; a request that ended stays ended; output forbids a retry.
use myference.Prelude.{
  ℕ, ◌+◌, ◌≤◌, String, true, false, Option, none, some, List, [], ◌∷◌, ◌≡◌, ◌⊎◌, inl, inr, refl,
  str_eq, eq_iff, if◌then◌else◌, arith, Bool-cases,
}
use myference.Provider.Requests.{
  RequestError, RequestEntry, RequestState, Cursor, Call, accept_call, cancel_call, record_call,
  is_accepted, record_chunk, can_retry, cursor, restore, call,
}
use myference.Protocol.Messages.{OutputChunk}

-- How often `accept` succeeded for `r` in a run.
abbrev accepted_here : String → Call → Option RequestError → ℕ
accepted_here r (accept_call q) none = if str_eq q r then 1 else 0
accepted_here r _ _ = 0

unfoldable pub leases : String → RequestState → List Call → ℕ
leases r s [] = 0
leases r s (c ∷ cs) = let (s', e) = call s c in accepted_here r c e + leases r s' cs

-- An accepted request stays accepted, and a second lease of it is refused.
call_keeps_accepted :
    (r : String) (s : RequestState) (c : Call)
    → is_accepted (s r) ≡ true
    → (is_accepted ((call s c).0 r) ≡ true) × (accepted_here r c (call s c).1 ≡ 0)
unfolding call
call_keeps_accepted r s (accept_call q) h = ground (arith, eq_iff q r)
call_keeps_accepted r s (cancel_call q) h = ground (arith, eq_iff q r)
call_keeps_accepted r s (record_call c) h = ground (arith, eq_iff c.request_id r)

call_accepts :
    (r : String) (s : RequestState) (c : Call)
    → (accepted_here r c (call s c).1 ≡ 0)
      ⊎ ((accepted_here r c (call s c).1 ≡ 1) × (is_accepted ((call s c).0 r) ≡ true))
unfolding call
call_accepts r s (accept_call q) = ground (arith, eq_iff q r)
call_accepts r s (cancel_call q) = inl refl
call_accepts r s (record_call c) = inl refl

leases_of_accepted :
    (r : String) (s : RequestState) (cs : List Call) → is_accepted (s r) ≡ true → leases r s cs ≡ 0
unfolding leases
leases_of_accepted r s [] h = refl
leases_of_accepted r s (c ∷ cs) h =
    let (kept, none_here) = call_keeps_accepted r s c h in
    omega (arith, none_here, leases_of_accepted r (call s c).0 cs kept)

-- Whatever the daemon does, it accepts the lease of a request at most once.
pub leases-le-one : (r : String) (s : RequestState) (cs : List Call) → leases r s cs ≤ 1
unfolding leases
leases-le-one r s [] = omega arith
leases-le-one r s (c ∷ cs) = elim (call_accepts r s c) [
  | inl zero_here ↦ omega (arith, zero_here, leases-le-one r (call s c).0 cs)
  | inr (one_here, now) ↦ omega (arith, one_here, leases_of_accepted r (call s c).0 cs now)
]

unfoldable pub run : RequestState → List Call → RequestState
run s [] = s
run s (c ∷ cs) = run (call s c).0 cs

call_of_terminal :
    (r : String) (s : RequestState) (c : Call) (e : RequestEntry)
    → s r ≡ some e
    → e.accepted ≡ true
    → e.terminal ≡ true
    → (call s c).0 r ≡ some e
unfolding call
call_of_terminal r s (accept_call q) e h a t = ground (arith, eq_iff q r)
call_of_terminal r s (cancel_call q) e h a t = ground (arith, eq_iff q r)
call_of_terminal r s (record_call c) e h a t = ground (arith, eq_iff c.request_id r)

-- An accepted request that has ended, by its last chunk or by a cancel, is never changed again.
pub terminal_absorbs :
    (r : String) (s : RequestState) (cs : List Call) (e : RequestEntry)
    → s r ≡ some e
    → e.accepted ≡ true
    → e.terminal ≡ true
    → run s cs r ≡ some e
unfolding run
terminal_absorbs r s [] e h a t = h
terminal_absorbs r s (c ∷ cs) e h a t =
    terminal_absorbs r (call s c).0 cs e (call_of_terminal r s c e h a t) a t

call_keeps_output :
    (r : String) (s : RequestState) (c : Call)
    → is_accepted (s r) ≡ true
    → can_retry s r ≡ false
    → (is_accepted ((call s c).0 r) ≡ true) × (can_retry (call s c).0 r ≡ false)
unfolding call can_retry
call_keeps_output r s (accept_call q) a h = ground (arith, eq_iff q r)
call_keeps_output r s (cancel_call q) a h = ground (arith, eq_iff q r)
call_keeps_output r s (record_call c) a h = ground (arith, eq_iff c.request_id r)

run_keeps_output :
    (r : String) (s : RequestState) (cs : List Call)
    → is_accepted (s r) ≡ true
    → can_retry s r ≡ false
    → can_retry (run s cs) r ≡ false
unfolding run
run_keeps_output r s [] a h = h
run_keeps_output r s (c ∷ cs) a h =
    let (a', h') = call_keeps_output r s c a h in run_keeps_output r (call s c).0 cs a' h'

recorded :
    (s : RequestState) (c : OutputChunk)
    → (record_chunk s c).1 ≡ none
    → (is_accepted ((record_chunk s c).0 c.request_id) ≡ true)
      × (can_retry (record_chunk s c).0 c.request_id ≡ false)
unfolding record_chunk can_retry
recorded s c h = ground (arith, eq_iff c.request_id c.request_id)

-- Once a chunk of a request was recorded, the request is never retried, whatever calls follow.
pub recorded_forbids_retry :
    (s : RequestState) (c : OutputChunk) (cs : List Call)
    → (record_chunk s c).1 ≡ none
    → can_retry (run (record_chunk s c).0 cs) c.request_id ≡ false
recorded_forbids_retry s c cs h =
    let (a, f) = recorded s c h in run_keeps_output c.request_id (record_chunk s c).0 cs a f

-- After `Restore` the request has the restored cursor, and every other request the one it had.
pub cursor-restore :
    (s : RequestState) (r q : String) (c : Cursor)
    → cursor (restore s r c) q ≡ (if str_eq r q then c else cursor s q)
unfolding cursor restore
cursor-restore s r q c = elim (Bool-cases (str_eq r q)) [
  | inl same ↦ rw (same, cursor, restore)
  | inr other ↦ rw (other, cursor, restore)
]
