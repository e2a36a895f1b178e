-- ===== src/Tests/Ledger.antt =====
-- A store of one object that keeps every body which it had, and a format with a table of records.
use s3_lease.Prelude.{
  ℕ, zero, suc, ◌≤◌, ◌<◌, ◌≡◌, refl, sym, ap, subst, ◌⊎◌, inl, inr, Bool, true, false, String,
  Option, none, some, List, [], ◌∷◌, ◌++◌, arith, length, take, str_eq, eq_iff, if◌then◌else◌,
  Bool-cases,
}
use native.Mathlib.Decide.{ℕ_discrete}
use s3_lease.Lease.Errors.{Result, ok, err, sentinel, not_found, conflict}
use s3_lease.Lease.State.{Bytes}
use s3_lease.Lease.World.{StoredObject}
use s3_lease.Manifest.{ManifestRecord, DecodedManifest, decoded, Format, activate, MutationRequest}
use s3_lease.Manifest.Records.{initial_record, result_record}
use s3_lease.Manifest.Writer.{ManifestStore, same_bytes}
use s3_lease.Manifest.Fencing.{Grows, Conditional, epoch, body_epoch}

abbrev pub Ledger : Type 0
Ledger = List Bytes

-- The version of the body that had so many before it.
abbrev pub version_at : ℕ → String
version_at zero = "w"
version_at (suc n) = String.◌∷◌ "v" (version_at n)

abbrev text_length : String → ℕ
text_length String.[] = 0
text_length (String.◌∷◌ c s) = suc (text_length s)

text_length-version_at : (n : ℕ) → text_length (version_at n) ≡ suc n
text_length-version_at zero = refl
text_length-version_at (suc n) = omega (arith, text_length-version_at n)

version_injective : (m n : ℕ) → version_at m ≡ version_at n → m ≡ n
version_injective m n e =
    let k = ap text_length e in omega (arith, k, text_length-version_at m, text_length-version_at n)

abbrev pub latest : Ledger → Option Bytes
latest [] = none
latest (body ∷ older) = some body

abbrev pub Was : Ledger → String → Bytes → Type 0
Was [] version old = ⊥
Was (body ∷ older) version old =
    ((version ≡ version_at (length older)) × (body ≡ old)) ⊎ Was older version old

abbrev fetch_ledger : Ledger → Result StoredObject × Ledger
fetch_ledger [] = (err (sentinel not_found), [])
fetch_ledger (body ∷ older) =
    (ok (record { body = body; version = version_at (length older) }), body ∷ older)

abbrev create_ledger : Bytes → Ledger → Result String × Ledger
create_ledger body [] = (ok (version_at 0), body ∷ [])
create_ledger body (old ∷ older) = (err (sentinel conflict), old ∷ older)

abbrev swap_ledger : String → Bytes → Ledger → Result String × Ledger
swap_ledger expected body [] = (err (sentinel not_found), [])
swap_ledger expected body (old ∷ older) =
    if str_eq expected (version_at (length older))
    then (ok (version_at (suc (length older))), body ∷ old ∷ older)
    else (err (sentinel conflict), old ∷ older)

abbrev pub zeros : Bytes
zeros = 0 ∷ 0 ∷ 0 ∷ 0 ∷ 0 ∷ 0 ∷ 0 ∷ 0 ∷ 0 ∷ 0 ∷ 0 ∷ 0 ∷ 0 ∷ 0 ∷ 0 ∷ 0 ∷ []

abbrev pub ledger_store : ManifestStore Ledger
ledger_store = record {
  fetch = fetch_ledger;
  create = create_ledger;
  swap = swap_ledger;
  random = λ s. (ok zeros, s);
}

-- The digest of thirteen bytes.
abbrev digest : String
digest = "0d00000000000000000000000000000000000000000000000000000000000000"

abbrev pub activation : ℕ → String → MutationRequest
activation epoch_id mutation_id = record {
  operation = activate;
  epoch_id = epoch_id;
  mutation_id = mutation_id;
  payload = [];
  digest = digest;
}

-- The record of epoch 1, and the one after the next leader's activation.
unfoldable pub first_record : ManifestRecord
unfolding initial_record
first_record = initial_record (activation 1 "one") zeros

unfoldable pub second_record : ManifestRecord
unfolding first_record result_record
second_record = result_record first_record (activation 2 "two")

abbrev decided : {P : Type 0} (b : Bool) → (b ≡ true → P) → (b ≡ false → ¬ P) → Dec P
decided true y n = yes (y refl)
decided false y n = no (n refl)

unfoldable pub String-discrete : Discrete String
String-discrete a b =
    decided (str_eq a b) ((eq_iff a b).0)
      (λ e q. let t : str_eq a b ≡ true = (eq_iff a b).1 q in ground (arith, e, t))

unfoldable pub ManifestRecord-discrete : Discrete ManifestRecord
unfolding String-discrete ℕ_discrete
ManifestRecord-discrete = hlevel (String-discrete, ℕ_discrete)

abbrev if_yes : {P : Type 0} → Dec P → Result Bytes → Result Bytes → Result Bytes
if_yes (yes p) a b = a
if_yes (no n) a b = b

unfoldable pub table : ManifestRecord → Result Bytes
unfolding ManifestRecord-discrete
table r = if_yes (ManifestRecord-discrete r first_record) (ok (1 ∷ [])) (
    if_yes (ManifestRecord-discrete r second_record) (ok (2 ∷ []))
      (ok (3 ∷ r.accepted_epoch_id ∷ [])))

-- The second byte.
abbrev epoch_byte : Bytes → ℕ
epoch_byte (a ∷ n ∷ body) = n
epoch_byte body = 0

-- Of a record that is not in the table, a body keeps the epoch only.
abbrev pub untable : Bytes → DecodedManifest
untable body =
    if same_bytes body (1 ∷ [])
    then decoded first_record
    else if same_bytes body (2 ∷ [])
    then decoded second_record
    else decoded (record first_record { accepted_epoch_id = epoch_byte body })

abbrev pub tabled : Format
tabled = record {
  marshal = table;
  unmarshal = untable;
  is_json = λ body. true;
  compact = λ body. ok body;
  sha256 = λ body. length body ∷ take 31 (zeros ++ zeros);
}

abbrev pub given : Result Bytes → Bytes
given (ok body) = body
given (err e) = []

second_read :
    (r : ManifestRecord) (d : Dec (r ≡ second_record)) (body : Bytes)
    → if_yes d (ok (2 ∷ [])) (ok (3 ∷ r.accepted_epoch_id ∷ [])) ≡ ok body
    → body_epoch tabled body ≡ r.accepted_epoch_id
second_read r (yes q) body e = rw (q, sym (ap given e)) refl
second_read r (no n) body e = rw (sym (ap given e)) refl

first_read :
    (r : ManifestRecord) (d : Dec (r ≡ first_record)) (body : Bytes)
    → if_yes d (ok (1 ∷ [])) (
        if_yes
          (ManifestRecord-discrete r second_record)
          (ok (2 ∷ []))
          (ok (3 ∷ r.accepted_epoch_id ∷ [])))
      ≡ ok body
    → body_epoch tabled body ≡ r.accepted_epoch_id
first_read r (yes q) body e = rw (q, sym (ap given e)) refl
first_read r (no n) body e = second_read r (ManifestRecord-discrete r second_record) body e

table-epoch :
    (r : ManifestRecord) (body : Bytes)
    → table r ≡ ok body
    → body_epoch tabled body ≡ r.accepted_epoch_id
unfolding table
table-epoch r body e = first_read r (ManifestRecord-discrete r first_record) body e

-- A later version is not one of an earlier body.
Was-earlier :
    (s : Ledger) (version : String) (old : Bytes)
    → Was s version old
    → (n : ℕ) × (n < length s) × (version ≡ version_at n)
Was-earlier [] version old w = elim w [ ]
Was-earlier (body ∷ older) version old (inl (e, q)) = (length older, omega arith, e)
Was-earlier (body ∷ older) version old (inr w) =
    let (n, l, e) = Was-earlier older version old w in (n, omega (arith, l), e)

Was-latest :
    (body : Bytes) (older : Ledger) (old : Bytes)
    → Was (body ∷ older) (version_at (length older)) old
    → body ≡ old
Was-latest body older old (inl (e, q)) = q
Was-latest body older old (inr w) =
    let (n, l, e) = Was-earlier older (version_at (length older)) old w in
    absurd (omega (arith, l, version_injective (length older) n e))

abbrev Later : Ledger → Ledger → Type 0
Later = Grows tabled ledger_store latest Was

Later-refl : (s : Ledger) → Later s s
Later-refl s = record { epoch_grows = omega arith; denotes = λ v b d. d }

fetch-Later : (s : Ledger) → Later s (fetch_ledger s).1
fetch-Later [] = Later-refl _
fetch-Later (body ∷ older) = Later-refl _

abbrev version_in : Result StoredObject → String
version_in (ok object) = object.version
version_in (err e) = ""

abbrev body_in : Result StoredObject → Bytes
body_in (ok object) = object.body
body_in (err e) = []

fetch-Was :
    (s : Ledger) (object : StoredObject)
    → (fetch_ledger s).0 ≡ ok object
    → Was (fetch_ledger s).1 object.version object.body
fetch-Was [] object e = absurd (ground (arith, e))
fetch-Was (body ∷ older) object e = inl (ap version_in (sym e), ap body_in e)

create-Was :
    (body : Bytes) (s : Ledger) (version : String) (old : Bytes)
    → Was s version old
    → Was (create_ledger body s).1 version old
create-Was body [] version old w = elim w [ ]
create-Was body (first ∷ older) version old w = w

create-epoch :
    (body : Bytes) (s : Ledger)
    → (epoch tabled ledger_store latest Was s
        ≤ epoch tabled ledger_store latest Was (create_ledger body s).1)
      ⊎ (epoch tabled ledger_store latest Was s ≡ 0)
create-epoch body [] = inr refl
create-epoch body (first ∷ older) = inl (omega arith)

swap-Was :
    (expected : String) (body : Bytes) (s : Ledger) (version : String) (old : Bytes)
    → Was s version old
    → Was (swap_ledger expected body s).1 version old
swap-Was expected body [] version old w = w
swap-Was expected body (first ∷ older) version old w =
    elim (Bool-cases (str_eq expected (version_at (length older)))) [
      | inl e ↦ rw e (inr w)
      | inr e ↦ rw e w
    ]

swap-epoch :
    (expected : String) (body : Bytes) (s : Ledger) (old : Bytes)
    → Was s expected old
    → (epoch tabled ledger_store latest Was s
        ≤ epoch tabled ledger_store latest Was (swap_ledger expected body s).1)
      ⊎ ((epoch tabled ledger_store latest Was s ≤ body_epoch tabled old)
          × (body_epoch tabled body
              ≤ epoch tabled ledger_store latest Was (swap_ledger expected body s).1))
swap-epoch expected body [] old w = inl (omega arith)
swap-epoch expected body (first ∷ older) old w =
    elim (Bool-cases (str_eq expected (version_at (length older)))) [
      | inl e ↦
          let q =
            Was-latest first older old
              (subst (λ v. Was (first ∷ older) v old) ((eq_iff _ _).0 e) w) in
          rw (e, q) (inr (omega arith, omega arith))
      | inr e ↦ rw e (inl (omega arith))
    ]

pub ledger-Conditional : Conditional tabled ledger_store latest Was
unfolding table
ledger-Conditional = record {
  fetch_keeps = fetch-Later;
  fetch_denotes = fetch-Was;
  random_keeps = Later-refl;
  create_keeps = create-epoch;
  create_denotes = create-Was;
  swap_replaces = swap-epoch;
  swap_denotes = swap-Was;
  reads_epoch_back = table-epoch;
}
