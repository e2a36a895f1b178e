-- ===== src/Recipes/Observer/Delivery.antt =====
-- Runs of the dispatcher of recipes/leaderelection/observer.go: polls that submit, callbacks that
-- return, and a stop, in any order.
use s3_lease.Prelude.{
  ℕ, zero, suc, ◌≤◌, ◌≡◌, ap, sym, ◌∙◌, ◌⊎◌, inl, inr, refl, arith, Bool, true, false, ◌&&◌, ◌||◌,
  not, Option, none, some, List, [], ◌∷◌, length, ltb, if◌then◌else◌,
}
use s3_lease.Lease.Operations.{Observation}
use s3_lease.Recipes.Observer.{
  Dispatcher, new_dispatcher, same_ownership, submit, next_pending, after_callback, stop,
}

-- The dispatcher, the goroutines that are in the callback, each with its observation, and every call
-- of the callback so far, the newest first.
pub record Deliveries : Type 0 where
  pub dispatcher : Dispatcher
  pub delivering : List Observation
  pub started : List Observation

abbrev pub new_deliveries : Bool → Deliveries
new_deliveries has_callback = record {
  dispatcher = new_dispatcher has_callback;
  delivering = [];
  started = [];
}

-- What happens next; the callback that returns is the one of the goroutine with that number.
pub data DispatchEvent : Type 0 where
  submits : Observation → DispatchEvent
  returns : ℕ → DispatchEvent
  stops : DispatchEvent

abbrev remove_at : ℕ → List Observation → List Observation
remove_at n [] = []
remove_at zero (o ∷ rest) = rest
remove_at (suc n) (o ∷ rest) = o ∷ remove_at n rest

-- The callback is called, or not.
abbrev pub starts :
    List Observation → List Observation → Option Observation × Dispatcher → Deliveries
starts delivering started (none, d) = record {
  dispatcher = d;
  delivering = delivering;
  started = started;
}
starts delivering started (some o, d) = record {
  dispatcher = d;
  delivering = o ∷ delivering;
  started = o ∷ started;
}

unfoldable pub dispatch : DispatchEvent → Deliveries → Deliveries
unfolding submit after_callback stop
dispatch (submits o) s = starts s.delivering s.started (submit o s.dispatcher)
dispatch (returns n) s =
    if ltb n (length s.delivering)
    then starts (remove_at n s.delivering) s.started (after_callback s.dispatcher)
    else s
dispatch stops s = record s { dispatcher = stop s.dispatcher }

unfoldable pub dispatch_all : List DispatchEvent → Deliveries → Deliveries
unfolding dispatch
dispatch_all [] s = s
dispatch_all (e ∷ events) s = dispatch_all events (dispatch e s)

-- The newest call of the callback was with this observation.
abbrev pub Newest : Observation → List Observation → Type 0
Newest o [] = ⊥
Newest o (first ∷ rest) = first ≡ o

pub record DispatchInv (s : Deliveries) : Type 0 where
  pub one :
      ((s.dispatcher.running ≡ true) × (length s.delivering ≡ 1))
      ⊎ ((s.dispatcher.running ≡ false) × (length s.delivering ≡ 0))
  pub waits : (s.dispatcher.pending ≡ none) ⊎ (s.dispatcher.running ≡ true)
  pub discarded : (s.dispatcher.stopped ≡ false) ⊎ (s.dispatcher.pending ≡ none)
  pub newest :
      (s.dispatcher.stopped ≡ true)
      ⊎ (s.dispatcher.seen ≡ false)
      ⊎ (s.dispatcher.pending ≡ some s.dispatcher.last)
      ⊎ ((s.dispatcher.pending ≡ none) × Newest s.dispatcher.last s.started)

removed :
    (n : ℕ) (xs : List Observation)
    → length xs ≡ 1
    → ltb n (length xs) ≡ true
    → length (remove_at n xs) ≡ 0
removed n [] k l = ground (arith, k)
removed zero (o ∷ []) k l = refl
removed (suc n) (o ∷ []) k l = ground (arith, l)
removed n (o ∷ p ∷ rest) k l = ground (arith, k)

either :
    (delivering started : List Observation) (b : Bool) (x y : Option Observation × Dispatcher)
    → (b ≡ true → DispatchInv (starts delivering started x))
    → (b ≡ false → DispatchInv (starts delivering started y))
    → DispatchInv (starts delivering started (if b then x else y))
either delivering started true x y h k = h refl
either delivering started false x y h k = k refl

abbrev value_or : Observation → Option Observation → Observation
value_or o none = o
value_or o (some p) = p

some-value : (o p : Observation) → some o ≡ some p → o ≡ p
some-value o p e = ap (value_or o) e

-- The round of `deliver` that follows, where nothing was stopped.
continues :
    (s : Deliveries) (delivering : List Observation) (p : Option Observation)
    → DispatchInv s
    → s.dispatcher.running ≡ true
    → length delivering ≡ 0
    → s.dispatcher.stopped ≡ false
    → s.dispatcher.pending ≡ p
    → DispatchInv (starts delivering s.started (next_pending p s.dispatcher))
continues s delivering none h r k u e = record {
  one = inr (refl, k);
  waits = inl e;
  discarded = inl u;
  newest = h.newest;
}
continues s delivering (some o) h r k u e = record {
  one = inl (r, ap suc k);
  waits = inl refl;
  discarded = inl u;
  newest = elim h.newest [
    | inl stopped ↦ inl stopped
    | inr (inl unseen) ↦ inr (inl unseen)
    | inr (inr (inl last)) ↦ inr (inr (inr (refl, some-value o s.dispatcher.last (sym e ∙ last))))
    | inr (inr (inr (n, newest))) ↦ absurd (ground (arith, e, n))
  ];
}

after_callback-Inv :
    (s : Deliveries) (delivering : List Observation)
    → DispatchInv s
    → s.dispatcher.running ≡ true
    → length delivering ≡ 0
    → DispatchInv (starts delivering s.started (after_callback s.dispatcher))
unfolding after_callback
after_callback-Inv s delivering h r k =
    either delivering s.started s.dispatcher.stopped _ _
      (λ t. record {
        one = inr (refl, k);
        waits = inl (ground (arith, t, h.discarded));
        discarded = h.discarded;
        newest = inl t;
      })
      (λ u. continues s delivering s.dispatcher.pending h r k u refl)

submit-Inv :
    (o : Observation) (s : Deliveries)
    → DispatchInv s
    → DispatchInv (starts s.delivering s.started (submit o s.dispatcher))
unfolding submit
submit-Inv o s h =
    either s.delivering s.started (not s.dispatcher.has_callback) _ _ (λ t. h)
      (λ t.
        either s.delivering s.started
          (s.dispatcher.stopped || s.dispatcher.seen && same_ownership s.dispatcher.last o) _ _
          (λ u. h)
          (λ u.
            either s.delivering s.started s.dispatcher.running _ _
              (λ r. record {
                one = h.one;
                waits = inr r;
                discarded = inl (ground (arith, u));
                newest = inr (inr (inl refl));
              })
              (λ r.
                let p : s.dispatcher.pending ≡ none = ground (arith, r, h.waits) in
                record {
                  one = inl (refl, ground (arith, r, h.one));
                  waits = inr refl;
                  discarded = inl (ground (arith, u));
                  newest = inr (inr (inr (p, refl)));
                })))

returned-Inv :
    (n : ℕ) (s : Deliveries) (b : Bool)
    → ltb n (length s.delivering) ≡ b
    → DispatchInv s
    → DispatchInv
        (if b then starts (remove_at n s.delivering) s.started (after_callback s.dispatcher) else s)
returned-Inv n s true e h =
    let one : length s.delivering ≡ 1 = ground (arith, e, h.one) in
    after_callback-Inv s (remove_at n s.delivering) h (ground (arith, e, h.one))
      (removed n s.delivering one e)
returned-Inv n s false e h = h

stopped-Inv :
    (s : Deliveries) (b : Bool)
    → DispatchInv s
    → s.dispatcher.stopped ≡ b
    → DispatchInv (record s {
      dispatcher =
          if b
          then s.dispatcher
          else record s.dispatcher { stopped = true; pending = none; canceled = true };
    })
stopped-Inv s true h e = h
stopped-Inv s false h e = record {
  one = h.one;
  waits = inl refl;
  discarded = inr refl;
  newest = inl refl;
}

dispatch-Inv : (e : DispatchEvent) (s : Deliveries) → DispatchInv s → DispatchInv (dispatch e s)
unfolding dispatch stop
dispatch-Inv (submits o) s h = submit-Inv o s h
dispatch-Inv (returns n) s h = returned-Inv n s (ltb n (length s.delivering)) refl h
dispatch-Inv stops s h = stopped-Inv s s.dispatcher.stopped h refl

dispatch_all-Inv :
    (events : List DispatchEvent) (s : Deliveries)
    → DispatchInv s
    → DispatchInv (dispatch_all events s)
unfolding dispatch_all
dispatch_all-Inv [] s h = h
dispatch_all-Inv (e ∷ events) s h = dispatch_all-Inv events (dispatch e s) (dispatch-Inv e s h)

new-Inv : (has_callback : Bool) → DispatchInv (new_deliveries has_callback)
new-Inv has_callback = record {
  one = inr (refl, refl);
  waits = inl refl;
  discarded = inl refl;
  newest = inr (inl refl);
}

-- At most one callback of a dispatcher runs at a time, whatever is submitted, returns or stops.
pub one_callback :
    (has_callback : Bool) (events : List DispatchEvent)
    → length (dispatch_all events (new_deliveries has_callback)).delivering ≤ 1
one_callback has_callback events =
    ground (arith, (dispatch_all-Inv events _ (new-Inv has_callback)).one)

-- When a dispatcher is not stopped, has taken an observation, and no callback is running, the
-- newest call of the callback was with the last observation that it took: coalescing loses no
-- newest state.
pub dispatch_all-Newest :
    (has_callback : Bool) (events : List DispatchEvent)
    → (dispatch_all events (new_deliveries has_callback)).dispatcher.stopped ≡ false
    → (dispatch_all events (new_deliveries has_callback)).dispatcher.seen ≡ true
    → length (dispatch_all events (new_deliveries has_callback)).delivering ≡ 0
    → Newest
        (dispatch_all events (new_deliveries has_callback)).dispatcher.last
        (dispatch_all events (new_deliveries has_callback)).started
dispatch_all-Newest has_callback events u k q =
    let s = dispatch_all events (new_deliveries has_callback) in
    let h = dispatch_all-Inv events _ (new-Inv has_callback) in
    let p : s.dispatcher.pending ≡ none = ground (arith, q, h.one, h.waits) in
    elim h.newest [
      | inl stopped ↦ absurd (ground (arith, u, stopped))
      | inr (inl unseen) ↦ absurd (ground (arith, k, unseen))
      | inr (inr (inl last)) ↦ absurd (ground (arith, p, last))
      | inr (inr (inr (n, newest))) ↦ newest
    ]

stopped-starts :
    (e : DispatchEvent) (s : Deliveries)
    → s.dispatcher.stopped ≡ true
    → ((dispatch e s).started ≡ s.started) × ((dispatch e s).dispatcher.stopped ≡ true)
unfolding dispatch submit after_callback stop
stopped-starts (submits o) s h = ground (arith, h)
stopped-starts (returns n) s h = ground (arith, h)
stopped-starts stops s h = ground (arith, h)

-- A dispatcher that is stopped calls the callback no more.
pub stopped_quiet :
    (events : List DispatchEvent) (s : Deliveries)
    → s.dispatcher.stopped ≡ true
    → (dispatch_all events s).started ≡ s.started
unfolding dispatch_all
stopped_quiet [] s h = refl
stopped_quiet (e ∷ events) s h =
    let (same, k) = stopped-starts e s h in stopped_quiet events (dispatch e s) k ∙ same
