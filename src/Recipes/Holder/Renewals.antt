-- ===== src/Recipes/Holder/Renewals.antt =====
-- The renewals of recipes/internal/holder/holder.go: how many are in flight, and what they are for.
use s3_lease.Prelude.{
  ◌≤◌, ◌≡◌, ◌⊎◌, inl, inr, refl, arith, Bool, true, false, Option, none, some, List, [], ◌∷◌,
  length, if◌then◌else◌,
}
use s3_lease.Lease.Errors.{Error, error_is, unknown_outcome}
use s3_lease.Recipes.Client.{renewal_retryable, is_lease_loss}
use s3_lease.Recipes.Holder.{
  Policy, lease_was_lost, fatal, Holding, new_holding, HolderEvent, work_ends, context_ends,
  lease_ends, fatal_error, renew_due, renew_replies, HolderNext, holds, leaves, noting,
  stopped_renewal, renewal_result, replied, holder_step, hold_more, holder_loop,
}

abbrev pub left : HolderNext → Holding
left (holds h) = h
left (leaves cause e h) = h

-- At most one renewal is in flight, and the loop knows of it.
pub record OneRenewal (h : Holding) : Type 0 where
  pub counted :
      ((h.renewing ≡ true) × (length h.in_flight ≡ 1)) ⊎ ((h.renewing ≡ false) × (h.in_flight ≡ []))

abbrev Fine : HolderNext → Type 0
Fine n = OneRenewal (left n)

if-Fine : (b : Bool) (x y : HolderNext) → Fine x → Fine y → Fine (if b then x else y)
if-Fine true x y k l = k
if-Fine false x y k l = l

same :
    (h k : Holding)
    → k.renewing ≡ h.renewing
    → k.in_flight ≡ h.in_flight
    → OneRenewal h
    → OneRenewal k
same h k e q o = record { counted = rw (e, q) o.counted }

result-Fine :
    (policy : Policy) (context : Option Error) (resolving : Bool) (e : Option Error) (h : Holding)
    → OneRenewal h
    → Fine (renewal_result policy context resolving e h)
unfolding renewal_result stopped_renewal
result-Fine policy context resolving none h o = same h _ refl refl o
result-Fine policy (some c) resolving (some e) h o = same h _ refl refl o
result-Fine policy none resolving (some e) h o =
    if-Fine (error_is e unknown_outcome) _ _ (same h _ refl refl o) (
      if-Fine (renewal_retryable e) _ _ (same h _ refl refl o)
        (if-Fine resolving _ _ o (if-Fine (is_lease_loss e) _ _ o o)))

replied-Fine :
    (policy : Policy) (context e : Option Error) (flight : List Bool) (h : Holding)
    → h.in_flight ≡ flight
    → OneRenewal h
    → Fine (replied policy context e flight h)
replied-Fine policy context e [] h q o = o
replied-Fine policy context e (resolving ∷ []) h q o =
    result-Fine policy context resolving e _ (record { counted = inr (refl, refl) })
replied-Fine policy context e (resolving ∷ other ∷ more) h q o =
    absurd (ground (arith, q, o.counted))

started-Fine :
    (b : Bool) (h : Holding)
    → h.renewing ≡ b
    → OneRenewal h
    → Fine (
        if b
        then holds h
        else holds (record h { renewing = true; in_flight = h.renewal_pending ∷ h.in_flight }))
started-Fine true h e o = o
started-Fine false h e o =
    let q : h.in_flight ≡ [] = ground (arith, e, o.counted) in
    record { counted = inl (refl, rw q refl) }

step-Fine :
    (policy : Policy) (context : Option Error) (e : HolderEvent) (h : Holding)
    → OneRenewal h
    → Fine (holder_step policy context e h)
unfolding holder_step
step-Fine policy (some c) (work_ends e) h o = same h _ refl refl o
step-Fine policy none (work_ends e) h o = same h _ refl refl o
step-Fine policy context (context_ends c) h o = o
step-Fine policy context (lease_ends checked) h o = o
step-Fine policy context (fatal_error none) h o = o
step-Fine policy context (fatal_error (some e)) h o = o
step-Fine policy context renew_due h o = started-Fine h.renewing h refl o
step-Fine policy context (renew_replies e) h o = replied-Fine policy context e h.in_flight h refl o

more-Fine :
    (n : HolderNext) (more : Holding → HolderNext)
    → Fine n
    → ((h : Holding) → OneRenewal h → Fine (more h))
    → Fine (hold_more n more)
more-Fine (holds h) more o k = k h o
more-Fine (leaves cause e h) more o k = o

loop-Fine :
    (policy : Policy) (events : List (Option Error × HolderEvent)) (h : Holding)
    → OneRenewal h
    → Fine (holder_loop policy events h)
unfolding holder_loop
loop-Fine policy [] h o = o
loop-Fine policy ((context, e) ∷ events) h o =
    more-Fine (holder_step policy context e h) _ (step-Fine policy context e h o)
      (λ k p. loop-Fine policy events k p)

counted-bound : (h : Holding) → OneRenewal h → length h.in_flight ≤ 1
counted-bound h o = ground (arith, o.counted)

-- No events make the loop of the holder have more than one renewal in flight.
pub one_renewal :
    (policy : Policy) (events : List (Option Error × HolderEvent))
    → length (left (holder_loop policy events new_holding)).in_flight ≤ 1
one_renewal policy events =
    let o = loop-Fine policy events new_holding (record { counted = inr (refl, refl) }) in
    counted-bound (left (holder_loop policy events new_holding)) o

-- ------------------------------------------------------------------ an unknown outcome

abbrev AllResolving : List Bool → Type 0
AllResolving [] = Unit {0}
AllResolving (b ∷ bs) = (b ≡ true) × AllResolving bs

-- A renewal has no known outcome: the next one resolves it, and so does the one in flight.
pub record Unresolved (h : Holding) : Type 0 where
  pub pending : h.renewal_pending ≡ true
  pub resolving : AllResolving h.in_flight

-- A renewal that replies has failed.
abbrev pub Unanswered : List (Option Error × HolderEvent) → Type 0
Unanswered [] = Unit {0}
Unanswered ((context, renew_replies none) ∷ events) = ⊥
Unanswered ((context, e) ∷ events) = Unanswered events

-- What the loop has of it at the end: it is unresolved, or no release is to be sent.
abbrev pub Remembered : HolderNext → Type 0
Remembered (holds h) = Unresolved h
Remembered (leaves fatal e h) = Unit {0}
Remembered (leaves lease_was_lost e h) = Unit {0}
Remembered (leaves cause e h) = (h.renewal_pending ≡ true) ⊎ (h.release_suppressed ≡ true)

if-Remembered :
    (b : Bool) (x y : HolderNext) → Remembered x → Remembered y → Remembered (if b then x else y)
if-Remembered true x y k l = k
if-Remembered false x y k l = l

noted-Remembered :
    (e : Error) (h : Holding)
    → ((noting (stopped_renewal true (some e)) h).renewal_pending ≡ true)
      ⊎ ((noting (stopped_renewal true (some e)) h).release_suppressed ≡ true)
unfolding stopped_renewal
noted-Remembered e h = ground arith

failed-Remembered :
    (policy : Policy) (context : Option Error) (e : Error) (h : Holding)
    → AllResolving h.in_flight
    → Remembered (renewal_result policy context true (some e) h)
unfolding renewal_result
failed-Remembered policy (some c) e h r = noted-Remembered e h
failed-Remembered policy none e h r =
    if-Remembered (error_is e unknown_outcome) _ _ (record { pending = refl; resolving = r })
      (if-Remembered (renewal_retryable e) _ _ (record { pending = refl; resolving = r }) tt)

replied-Remembered :
    (policy : Policy) (context : Option Error) (e : Error) (flight : List Bool) (h : Holding)
    → h.in_flight ≡ flight
    → Unresolved h
    → AllResolving flight
    → Remembered (replied policy context (some e) flight h)
replied-Remembered policy context e [] h q u r = u
replied-Remembered policy context e (true ∷ others) h q u (b, r) =
    failed-Remembered policy context e (record h { renewing = false; in_flight = others }) r
replied-Remembered policy context e (false ∷ others) h q u (b, r) = absurd (ground (arith, b))

step-Remembered :
    (policy : Policy) (context : Option Error) (e : HolderEvent) (h : Holding)
    → Unanswered ((context, e) ∷ [])
    → Unresolved h
    → Remembered (holder_step policy context e h)
unfolding holder_step
step-Remembered policy (some c) (work_ends e) h n u = inl u.pending
step-Remembered policy none (work_ends e) h n u = inl u.pending
step-Remembered policy context (context_ends c) h n u = inl u.pending
step-Remembered policy context (lease_ends checked) h n u = tt
step-Remembered policy context (fatal_error none) h n u = u
step-Remembered policy context (fatal_error (some e)) h n u = tt
step-Remembered policy context renew_due h n u =
    if-Remembered h.renewing _ _ u
      (record { pending = u.pending; resolving = (u.pending, u.resolving) })
step-Remembered policy context (renew_replies none) h n u = absurd n
step-Remembered policy context (renew_replies (some e)) h n u =
    replied-Remembered policy context e h.in_flight h refl u u.resolving

more-Remembered :
    (n : HolderNext) (more : Holding → HolderNext)
    → Remembered n
    → ((h : Holding) → Unresolved h → Remembered (more h))
    → Remembered (hold_more n more)
more-Remembered (holds h) more o k = k h o
more-Remembered (leaves cause e h) more o k = o

Unanswered-split :
    (context : Option Error) (e : HolderEvent) (events : List (Option Error × HolderEvent))
    → Unanswered ((context, e) ∷ events)
    → Unanswered ((context, e) ∷ []) × Unanswered events
Unanswered-split context (renew_replies none) events n = absurd n
Unanswered-split context (renew_replies (some e)) events n = (tt, n)
Unanswered-split context (work_ends e) events n = (tt, n)
Unanswered-split context (context_ends e) events n = (tt, n)
Unanswered-split context (lease_ends e) events n = (tt, n)
Unanswered-split context (fatal_error e) events n = (tt, n)
Unanswered-split context renew_due events n = (tt, n)

-- While a renewal has no known outcome and every renewal that replies fails, no events make the
-- loop of the holder forget it: it goes on with the renewal unresolved, or it stops for a lost
-- lease or a fatal error, or it hands the renewal on as pending or bars the release.
pub holder_loop-Remembered :
    (policy : Policy) (events : List (Option Error × HolderEvent)) (h : Holding)
    → Unanswered events
    → Unresolved h
    → Remembered (holder_loop policy events h)
unfolding holder_loop
holder_loop-Remembered policy [] h n u = u
holder_loop-Remembered policy ((context, e) ∷ events) h n u =
    let (one, rest) = Unanswered-split context e events n in
    more-Remembered (holder_step policy context e h) _ (step-Remembered policy context e h one u)
      (λ k v. holder_loop-Remembered policy events k rest v)
