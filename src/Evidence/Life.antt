-- ===== src/Evidence/Life.antt =====
-- The life of the evidence table: any sequence of offers, decisions and withdrawals.
use iceberg_cti.Evidence.History.{
  revoke-IsLater, All-put, reject-IsLater, IsHistory-trans, accept-IsLater, put-IsHistory,
  recorded-IsSound, IsHistory, IsHistory-refl, IsLater, IsSound, put,
}
use iceberg_cti.Evidence.{
  identity_match, validate, IntakeResult, tlp_rank, Tlp, revoke, reject, accept, User, get_or_404,
  Json, intake, Desk,
}
use iceberg_cti.Evidence.Rows.{EvidenceError, EvidenceReference, Source}
use iceberg_cti.Base.{
  find_first_sound, All-append, find_first, [], ◌∷◌, arith, inl, inr, some, none, ok, err, nat_eq,
  string_eq, ◌>>=◌, ◌≡◌, ◌≤◌, ◌++◌, ◌==◌, List, Option, ℕ, String, Result, All, Option-cases,
  Result-cases,
}

-- The state: the rows, and the sources made of them.
pub record Store : Type 0 where
  pub rows : List EvidenceReference
  pub sources : List Source

pub data Act : Type 0 where
  offering : Desk → ℕ → Json → User → Act
  accepting : Desk → ℕ → ℕ → User → Act
  rejecting : Desk → ℕ → ℕ → User → Act
  revoking : Desk → ℕ → ℕ → String → Act

-- The source that a decision adds, if any.
abbrev made_of : Option Source → List Source
made_of none = []
made_of (some source) = source ∷ []

abbrev run : Store → Act → Result EvidenceError Store
run s (Act.offering desk notebook_id envelope actor) = do
  (result, rows) ← intake desk notebook_id envelope actor s.rows
  ok (record s { rows = rows })
run s (Act.accepting desk notebook_id id actor) = do
  r ← get_or_404 notebook_id id s.rows
  (after, source) ← accept desk notebook_id actor r
  ok (record { rows = put id after s.rows; sources = s.sources ++ made_of source })
run s (Act.rejecting desk notebook_id id actor) = do
  r ← get_or_404 notebook_id id s.rows
  after ← reject desk actor r
  ok (record s { rows = put id after s.rows })
run s (Act.revoking desk notebook_id id reason) = do
  r ← get_or_404 notebook_id id s.rows
  ok (record s { rows = put id (revoke desk reason r) s.rows })

-- An act that raises changes nothing.
unfoldable pub handle : Store → Act → Store
handle s a = elim (run s a) [ err e ↦ s | ok after ↦ after ]

unfoldable pub handle_all : Store → List Act → Store
handle_all s [] = s
handle_all s (a ∷ acts) = handle_all (handle s a) acts

-- Every row is sound, and no source is marked below the floor.
pub record IsKept (floor : Tlp) (s : Store) : Type 0 where
  pub rows_sound : All (IsSound floor) s.rows
  pub sources_marked : All (λ source. tlp_rank floor ≤ tlp_rank source.tlp) s.sources

-- The floor of the deployment is the same at each offer.
abbrev pub Under : Tlp → Act → Type 0
Under floor (Act.offering desk notebook_id envelope actor) = desk.floor ≡ floor
Under floor _ = Unit

-- What a handler leaves, from what it started with.
abbrev pub HasStep : Tlp → Store → Store → Type 0
HasStep floor s after = IsHistory s.rows after.rows × IsKept floor after

put-HasStep :
    (floor : Tlp) (s : Store) (id : ℕ) (sources : List Source) {r after : EvidenceReference}
    → find_first (λ old. old.id == id) s.rows ≡ some r
    → IsLater r after × IsSound floor after
    → All (λ source. tlp_rank floor ≤ tlp_rank source.tlp) sources
    → IsKept floor s
    → HasStep floor s (record { rows = put id after s.rows; sources = sources })
put-HasStep floor s id sources {r} {after} found later marked h = (
  put-IsHistory id s.rows found later.0,
  record {
    rows_sound = All-put (IsSound floor) id after s.rows later.1 h.rows_sound;
    sources_marked = marked;
  },
)

get_or_404-found :
    (notebook_id id : ℕ) (rows : List EvidenceReference) {r : EvidenceReference}
    → get_or_404 notebook_id id rows ≡ ok r
    → find_first (λ old. old.id == id) rows ≡ some r
unfolding get_or_404
get_or_404-found notebook_id id rows h =
    elim (Option-cases (find_first (λ old. old.id == id) rows)) [
      | inl none_found ↦ ground arith
      | inr (r, found) ↦ ground arith
    ]

offered-IsSound :
    (floor : Tlp) (desk : Desk) (notebook_id : ℕ) (envelope : Json) (actor : User)
    (rows : List EvidenceReference) {result : IntakeResult} {after : List EvidenceReference}
    → desk.floor ≡ floor
    → All (IsSound floor) rows
    → intake desk notebook_id envelope actor rows ≡ ok (result, after)
    → IsHistory rows after × All (IsSound floor) after
unfolding intake
offered-IsSound floor desk notebook_id envelope actor rows fixed h done =
    elim (Result-cases (validate desk.wire envelope)) [
      | inr (e, refused) ↦ ground arith
      | inl (e, valid) ↦
          recorded-IsSound floor desk notebook_id e actor rows (identity_match e rows) fixed h
            (rw valid at done)
    ]

accept-marks :
    (desk : Desk) (notebook_id : ℕ) (actor : User) (floor : Tlp) (r : EvidenceReference)
    (source : Option Source) {after : EvidenceReference}
    → IsSound floor r
    → accept desk notebook_id actor r ≡ ok (after, source)
    → All (λ made. tlp_rank floor ≤ tlp_rank made.tlp) (made_of source)
unfolding accept
accept-marks desk notebook_id actor floor r none h done = tt
accept-marks desk notebook_id actor floor r (some source) h done = (ground arith, tt)

IsSound-found :
    (floor : Tlp) (s : Store) (id : ℕ) {r : EvidenceReference}
    → IsKept floor s
    → find_first (λ old. old.id == id) s.rows ≡ some r
    → IsSound floor r
IsSound-found floor s id {r} h found =
    (find_first_sound (IsSound floor) (λ old. old.id == id) s.rows r h.rows_sound found).0

run-HasStep :
    (floor : Tlp) (s : Store) (a : Act) {after : Store}
    → Under floor a
    → IsKept floor s
    → run s a ≡ ok after
    → HasStep floor s after
run-HasStep floor s (Act.offering desk notebook_id envelope actor) {after} fixed h done =
    elim (Result-cases (intake desk notebook_id envelope actor s.rows)) [
      | inr (e, refused) ↦ ground arith
      | inl ((result, rows), got) ↦
          let kept =
            offered-IsSound floor desk notebook_id envelope actor s.rows fixed h.rows_sound got in
          let same : after ≡ record s { rows = rows } = ground arith in
          rw same (kept.0, record { rows_sound = kept.1; sources_marked = h.sources_marked })
    ]
run-HasStep floor s (Act.accepting desk notebook_id id actor) {after} fixed h done =
    elim (Result-cases (get_or_404 notebook_id id s.rows)) [
      | inr (e, missing) ↦ ground arith
      | inl (r, got) ↦ elim (Result-cases (accept desk notebook_id actor r)) [
        | inr (e, refused) ↦ ground arith
        | inl ((later, source), accepted) ↦
            let found = get_or_404-found notebook_id id s.rows got in
            let sound = IsSound-found floor s id h found in
            let same : after
                ≡ record { rows = put id later s.rows; sources = s.sources ++ made_of source } =
              ground arith in
            rw same (
              put-HasStep floor s id (s.sources ++ made_of source) found
                (accept-IsLater desk notebook_id actor floor r sound accepted)
                (All-append (λ made. tlp_rank floor ≤ tlp_rank made.tlp) s.sources (made_of source)
                  h.sources_marked
                  (accept-marks desk notebook_id actor floor r source sound accepted))
                h)
      ]
    ]
run-HasStep floor s (Act.rejecting desk notebook_id id actor) {after} fixed h done =
    elim (Result-cases (get_or_404 notebook_id id s.rows)) [
      | inr (e, missing) ↦ ground arith
      | inl (r, got) ↦ elim (Result-cases (reject desk actor r)) [
        | inr (e, refused) ↦ ground arith
        | inl (later, rejected) ↦
            let found = get_or_404-found notebook_id id s.rows got in
            let same : after ≡ record s { rows = put id later s.rows } = ground arith in
            rw same (
              put-HasStep floor s id s.sources found
                (reject-IsLater desk actor floor r (IsSound-found floor s id h found) rejected)
                h.sources_marked h)
      ]
    ]
run-HasStep floor s (Act.revoking desk notebook_id id reason) {after} fixed h done =
    elim (Result-cases (get_or_404 notebook_id id s.rows)) [
      | inr (e, missing) ↦ ground arith
      | inl (r, got) ↦
          let found = get_or_404-found notebook_id id s.rows got in
          let same : after ≡ record s { rows = put id (revoke desk reason r) s.rows } =
            ground arith in
          rw same (
            put-HasStep floor s id s.sources found
              (revoke-IsLater desk reason floor r (IsSound-found floor s id h found))
              h.sources_marked h)
    ]

handle-HasStep :
    (floor : Tlp) (s : Store) (a : Act)
    → Under floor a
    → IsKept floor s
    → HasStep floor s (handle s a)
unfolding handle
handle-HasStep floor s a fixed h = elim (Result-cases (run s a)) [
  | inr (e, refused) ↦ rw (handle, refused) (IsHistory-refl s.rows, h)
  | inl (after, done) ↦ rw (handle, done) (run-HasStep floor s a fixed h done)
]

-- Where every row is sound and no source is marked below the floor, this stays so under any sequence
-- of offers (all under that floor), acceptances, rejections and withdrawals, each of which may be
-- refused: an accepted row has its source and who decided, an offered or rejected one has no source,
-- and no row and no source is marked below the floor. And each row is still there, with its identity,
-- payload and marking: a withdrawn one is still withdrawn, one that is superseded or withdrawn is never
-- pending, accepted or rejected again, and a source that was named is still named.
pub handle_all-IsKept :
    (floor : Tlp) (s : Store) (acts : List Act)
    → All (Under floor) acts
    → IsKept floor s
    → HasStep floor s (handle_all s acts)
unfolding handle_all
handle_all-IsKept floor s [] fixed h = (IsHistory-refl s.rows, h)
handle_all-IsKept floor s (a ∷ acts) fixed h =
    let step = handle-HasStep floor s a fixed.0 h in
    let rest = handle_all-IsKept floor (handle s a) acts fixed.1 step.1 in
    (IsHistory-trans step.0 rest.0, rest.1)
