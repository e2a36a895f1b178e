-- ===== src/Lease/Errors.antt =====
-- lease/errors.go, and the error tests of lease/core.go and lease/operations.go. An error is a tree:
-- `errors.Is` looks for a sentinel in it, and asks `(*StoreError).Is` at each `StoreError`. Message
-- texts are left out.
use s3_lease.Prelude.{
  ℕ, Bool, true, false, ◌&&◌, ◌||◌, String, Option, none, some, ◌==◌, if◌then◌else◌,
}

-- The package's error variables, the two of package context, and those of the other packages.
pub data Sentinel : Type 0 where
  not_eligible conflict unknown_outcome not_found already_held concurrent_mutation : Sentinel
  invalid_lease lease_expired lease_retired ownership_lost lease_disappeared : Sentinel
  protocol_violation counter_overflow unauthorized unavailable invalid_config : Sentinel
  canceled deadline_exceeded : Sentinel
  recipe_busy lock_not_held lease_lost work_not_stopped run_already_used leadership_lost : Sentinel
  fenced epoch_not_activated mutation_conflict manifest_busy resource_disappeared : Sentinel
  resource_changed resource_rolled_back invalid_manifest : Sentinel
  leader_work_not_stopped : Sentinel
  nil_pointer : Sentinel  -- stands for the panic of a nil dereference

-- An error variable is one pointer, so two are the same exactly when their numbers are.
abbrev pub sentinel_index : Sentinel → ℕ
sentinel_index not_eligible = 0
sentinel_index conflict = 1
sentinel_index unknown_outcome = 2
sentinel_index not_found = 3
sentinel_index already_held = 4
sentinel_index concurrent_mutation = 5
sentinel_index invalid_lease = 6
sentinel_index lease_expired = 7
sentinel_index lease_retired = 8
sentinel_index ownership_lost = 9
sentinel_index lease_disappeared = 10
sentinel_index protocol_violation = 11
sentinel_index counter_overflow = 12
sentinel_index unauthorized = 13
sentinel_index unavailable = 14
sentinel_index invalid_config = 15
sentinel_index canceled = 16
sentinel_index deadline_exceeded = 17
sentinel_index recipe_busy = 18
sentinel_index lock_not_held = 19
sentinel_index lease_lost = 20
sentinel_index work_not_stopped = 21
sentinel_index run_already_used = 22
sentinel_index leadership_lost = 23
sentinel_index fenced = 24
sentinel_index epoch_not_activated = 25
sentinel_index mutation_conflict = 26
sentinel_index manifest_busy = 27
sentinel_index resource_disappeared = 28
sentinel_index resource_changed = 29
sentinel_index resource_rolled_back = 30
sentinel_index invalid_manifest = 31
sentinel_index nil_pointer = 32
sentinel_index leader_work_not_stopped = 33

abbrev pub same_sentinel : Sentinel → Sentinel → Bool
same_sentinel s t = sentinel_index s == sentinel_index t

pub data StoreOperation : Type 0 where
  get create_if_absent compare_and_swap : StoreOperation

pub data StoreErrorKind : Type 0 where
  kind_not_found precondition_failed kind_conflict kind_unauthorized temporary : StoreErrorKind
  outcome_unknown invalid_response : StoreErrorKind

abbrev pub operation_index : StoreOperation → ℕ
operation_index get = 0
operation_index create_if_absent = 1
operation_index compare_and_swap = 2

abbrev pub kind_index : StoreErrorKind → ℕ
kind_index kind_not_found = 0
kind_index precondition_failed = 1
kind_index kind_conflict = 2
kind_index kind_unauthorized = 3
kind_index temporary = 4
kind_index outcome_unknown = 5
kind_index invalid_response = 6

-- What the code asks of an error of another package: the HTTP status of a response error, the
-- lower-cased code of an API error, whether it is a net error, and whether it is one of the errors
-- of package context.
pub record External : Type 0 where
  pub status : Option ℕ
  pub code : Option String
  pub net_error : Bool
  pub is_canceled : Bool
  pub is_deadline : Bool

-- `annotated e` is `fmt.Errorf("%w: …", e)`; `joined` is `errors.Join` and `fmt.Errorf("%w: %w")`.
-- A `StoreError` always has a cause here.
pub data Error : Type 0 where
  sentinel : Sentinel → Error
  store_error : StoreOperation → StoreErrorKind → Error → Error
  annotated : Error → Error
  joined : Error → Error → Error
  external : External → Error

-- `(*StoreError).Is`
unfoldable pub kind_is : StoreErrorKind → Sentinel → Bool
kind_is k not_found = kind_index k == kind_index kind_not_found
kind_is k conflict =
    kind_index k == kind_index precondition_failed || kind_index k == kind_index kind_conflict
kind_is k unknown_outcome = kind_index k == kind_index outcome_unknown
kind_is k unauthorized = kind_index k == kind_index kind_unauthorized
kind_is k unavailable = kind_index k == kind_index temporary
kind_is k protocol_violation = kind_index k == kind_index invalid_response
kind_is k _ = false

-- `errors.Is`
unfoldable pub error_is : Error → Sentinel → Bool
unfolding kind_is
error_is (sentinel s) t = same_sentinel s t
error_is (store_error op k e) t = kind_is k t || error_is e t
error_is (annotated e) t = error_is e t
error_is (joined e f) t = error_is e t || error_is f t
error_is (external x) t =
    x.is_canceled && same_sentinel t canceled || x.is_deadline && same_sentinel t deadline_exceeded

abbrev pub first_of_two {ℓ} : {A : Type ℓ} → Option A → Option A → Option A
first_of_two none b = b
first_of_two (some a) b = some a

-- `errors.As` with a `*StoreError`: the first in the tree.
unfoldable pub store_error_in : Error → Option (StoreOperation × StoreErrorKind)
store_error_in (sentinel s) = none
store_error_in (store_error op k e) = some (op, k)
store_error_in (annotated e) = store_error_in e
store_error_in (joined e f) = first_of_two (store_error_in e) (store_error_in f)
store_error_in (external x) = none

-- The empty operation is `none`, and matches any.
abbrev operation_matches : Option StoreOperation → StoreOperation → Bool
operation_matches none op = true
operation_matches (some wanted) op = operation_index wanted == operation_index op

abbrev matches_store_error :
    Option (StoreOperation × StoreErrorKind) → Option StoreOperation → StoreErrorKind → Bool
matches_store_error none operation kind = false
matches_store_error (some (op, k)) operation kind =
    operation_matches operation op && kind_index k == kind_index kind

unfoldable pub is_store_error : Error → Option StoreOperation → StoreErrorKind → Bool
unfolding store_error_in
is_store_error err operation kind = matches_store_error (store_error_in err) operation kind

unfoldable pub store_error_kind_of : Error → Option StoreErrorKind
unfolding store_error_in
store_error_kind_of err = elim (store_error_in err) [ none ↦ none | some (op, kind) ↦ some kind ]

unfoldable pub is_definitive_conflict : Error → Bool
unfolding is_store_error error_is
is_definitive_conflict err =
    is_store_error err none precondition_failed
    || is_store_error err none kind_conflict
    || error_is err conflict

unfoldable pub is_unknown_write : Error → Bool
unfolding error_is
is_unknown_write err =
    error_is err unknown_outcome || error_is err canceled || error_is err deadline_exceeded

unfoldable pub classify_acquisition_error : Error → Error
unfolding is_unknown_write is_definitive_conflict
classify_acquisition_error err =
    if is_unknown_write err
    then joined (sentinel unknown_outcome) err
    else if is_definitive_conflict err
    then joined (sentinel conflict) err
    else err

-- What a fallible function returns: a value, or its error.
pub data Result {ℓ} (A : Type ℓ) : Type ℓ where
  ok : A → Result A
  err : Error → Result A
