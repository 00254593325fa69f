-- ===== src/Feedback/Loop.antt =====
-- What a verdict leaves: one row of the stakeholder on the report, and a requirement that is met.
use iceberg_cti.Models.{Report}
use iceberg_cti.Feedback.{
  RequirementStatus, is_satisfied, set_status, Instant, close_loop, is_met, was_delivered,
  ensure_visible, Store, new_feedback, satisfaction_of, RfiSatisfaction, filled, named_requirement,
  submit_feedback, existing_feedback, id_of, Requirement, is_of, Verdict, User, ProductFeedback,
  upsert,
}
use iceberg_cti.Base.{
  ==_iff, ==_refl, ap, is_ok, find_first_sound, length, ◌∙◌, find_first, update_where, [], ◌∷◌,
  refl, arith, inl, inr, some, none, ok, true, false, nat_eq, string_eq, ◌≡◌, ◌≤◌, ◌++◌, ◌==◌, not,
  Bool, List, Option, ℕ, All, map, select, Bool-cases, Option-cases, Result-cases,
}

select-none :
    (p : ProductFeedback → Bool) (xs : List ProductFeedback)
    → find_first p xs ≡ none
    → select p xs ≡ []
select-none p [] h = refl
select-none p (x ∷ xs) h = ground (arith, select-none p xs)

select-join :
    (p : ProductFeedback → Bool) (xs ys : List ProductFeedback)
    → select p (xs ++ ys) ≡ select p xs ++ select p ys
select-join p [] ys = refl
select-join p (x ∷ xs) ys = ground (arith, select-join p xs ys)

-- An update that keeps a row's owner updates the rows of that owner.
select-updated :
    (p : ProductFeedback → Bool) (f : ProductFeedback → ProductFeedback) (xs : List ProductFeedback)
    → ((x : ProductFeedback) → p (f x) ≡ p x)
    → select p (update_where p f xs) ≡ map f (select p xs)
select-updated p f [] keep = refl
select-updated p f (x ∷ xs) keep = elim (Bool-cases (p x)) [
  | inl hit ↦
      let still : p (f x) ≡ true = keep x ∙ hit in rw (hit, still, select-updated p f xs keep) refl
  | inr miss ↦ rw (miss, miss, select-updated p f xs keep) refl
]

select-others :
    (p : ProductFeedback → Bool) (f : ProductFeedback → ProductFeedback) (xs : List ProductFeedback)
    → ((x : ProductFeedback) → p (f x) ≡ p x)
    → select (λ x. not (p x)) (update_where p f xs) ≡ select (λ x. not (p x)) xs
select-others p f [] keep = refl
select-others p f (x ∷ xs) keep = elim (Bool-cases (p x)) [
  | inl hit ↦
      let still : p (f x) ≡ true = keep x ∙ hit in rw (hit, still, select-others p f xs keep) refl
  | inr miss ↦ rw (miss, miss, select-others p f xs keep) refl
]

-- The rows of the stakeholder on the report are one row, which says what the verdict says.
pub record IsRecorded (report : Report) (stakeholder : User) (v : Verdict)
    (before after : List ProductFeedback) : Type 0 where
  pub row : ProductFeedback
  pub only : select (is_of report stakeholder) after ≡ row ∷ []
  pub usefulness : row.usefulness ≡ v.usefulness
  pub comment : row.comment ≡ v.comment
  pub requirement : row.requirement_id ≡ v.requirement_id
  pub satisfaction : v.requirement_id ≡ none → row.satisfaction ≡ none
  pub others :
      select (λ f. not (is_of report stakeholder f)) after
      ≡ select (λ f. not (is_of report stakeholder f)) before

-- No stakeholder has two rows on one report.
abbrev pub HasOneRow : Report → User → List ProductFeedback → Type 0
HasOneRow report stakeholder feedback = length (select (is_of report stakeholder) feedback) ≤ 1

length-nil : (xs : List ProductFeedback) → length xs ≡ 0 → xs ≡ []
length-nil [] h = refl
length-nil (x ∷ xs) h = ground arith

append-nil : (xs : List ProductFeedback) → xs ++ [] ≡ xs
append-nil [] = refl
append-nil (x ∷ xs) = rw (append-nil xs) refl

All-unit : (xs : List Requirement) → All (λ r. Unit {0}) xs
All-unit [] = tt
All-unit (x ∷ xs) = (tt, All-unit xs)

one_of :
    (p : ProductFeedback → Bool) (xs : List ProductFeedback) {f : ProductFeedback}
    → find_first p xs ≡ some f
    → length (select p xs) ≤ 1
    → select p xs ≡ f ∷ []
one_of p [] h one = cc
one_of p (x ∷ xs) {f} h one = elim (Bool-cases (p x)) [
  | inl hit ↦
      let same : x ≡ f = ground arith in
      let short : length (x ∷ select p xs) ≤ 1 = rw hit at one in
      let nothing : select p xs ≡ [] = length-nil (select p xs) (omega (arith, short)) in
      rw (hit, nothing, same) refl
  | inr miss ↦ rw miss (one_of p xs (rw miss at h) (rw miss at one))
]

satisfaction-none :
    (requirement : Option Requirement) (verdict : Option RfiSatisfaction)
    → id_of requirement ≡ none
    → satisfaction_of requirement verdict ≡ none
satisfaction-none none verdict h = refl
satisfaction-none (some r) verdict h = cc

new_is_of :
    (report : Report) (stakeholder : User) (v : Verdict) (requirement : Option Requirement)
    → is_of report stakeholder (filled v requirement (new_feedback report stakeholder v)) ≡ true
new_is_of report stakeholder v requirement = rw (==_refl report.id, ==_refl stakeholder.id) refl

upsert-IsRecorded :
    (report : Report) (stakeholder : User) (v : Verdict) (requirement : Option Requirement)
    (feedback : List ProductFeedback)
    → id_of requirement ≡ v.requirement_id
    → HasOneRow report stakeholder feedback
    → IsRecorded report stakeholder v feedback (upsert report stakeholder v requirement feedback)
unfolding upsert
upsert-IsRecorded report stakeholder v requirement feedback named one =
    let mine = is_of report stakeholder in
    let fill = filled v requirement in
    elim (Option-cases (existing_feedback feedback report stakeholder)) [
      | inl new ↦
          let row = fill (new_feedback report stakeholder v) in
          let is_mine = new_is_of report stakeholder v requirement in
          rw (upsert, new)
            (record {
              row = row;
              only =
                  select-join mine feedback (row ∷ [])
                  ∙ rw (select-none mine feedback new, is_mine) refl;
              usefulness = refl;
              comment = refl;
              requirement = named;
              satisfaction =
                  λ unnamed. satisfaction-none requirement v.satisfaction (named ∙ unnamed);
              others =
                  select-join (λ f. not (mine f)) feedback (row ∷ [])
                  ∙ rw is_mine (append-nil (select (λ f. not (mine f)) feedback));
            })
      | inr (f, old) ↦
          rw (upsert, old)
            (record {
              row = fill f;
              only =
                  select-updated mine fill feedback (λ x. refl)
                  ∙ ap (map fill) (one_of mine feedback old one);
              usefulness = refl;
              comment = refl;
              requirement = named;
              satisfaction =
                  λ unnamed. satisfaction-none requirement v.satisfaction (named ∙ unnamed);
              others = select-others mine fill feedback (λ x. refl);
            })
    ]

named_requirement-id :
    (table : List Requirement) (report : Report) (stakeholder : User) (id : Option ℕ)
    {requirement : Option Requirement}
    → named_requirement table report stakeholder id ≡ ok requirement
    → id_of requirement ≡ id
unfolding named_requirement
named_requirement-id table report stakeholder none h = ground arith
named_requirement-id table report stakeholder (some id) h =
    elim (Option-cases (find_first (λ r. r.id == id) table)) [
      | inl missing ↦ ground arith
      | inr (r, found) ↦
          let (_, same) =
            find_first_sound (λ r. Unit {0}) (λ r. r.id == id) table r (All-unit table) found in
          ground arith
    ]

-- A stakeholder's feedback is taken only on a report that he may read and that was delivered to him.
-- Where he has at most one row on it before, he then has exactly one, with the verdict's usefulness,
-- comment and requirement and with no satisfaction unless a requirement is named; the rows of others
-- and on other reports stay as they are.
pub submit_feedback-IsRecorded :
    (s : Store) (report : Report) (stakeholder : User) (v : Verdict) {after : Store}
    → HasOneRow report stakeholder s.feedback
    → submit_feedback s report stakeholder v ≡ ok after
    → (is_ok (ensure_visible report stakeholder) ≡ true)
      × (was_delivered s.events report stakeholder ≡ true)
      × IsRecorded report stakeholder v s.feedback after.feedback
unfolding submit_feedback
submit_feedback-IsRecorded s report stakeholder v {after} one done =
    elim (Result-cases (named_requirement s.requirements report stakeholder v.requirement_id)) [
      | inr (e, refused) ↦ ground arith
      | inl (requirement, named) ↦
          let kept : after.feedback ≡ upsert report stakeholder v requirement s.feedback =
            ground arith in
          (
            ground arith,
            ground arith,
            rw kept (
                upsert-IsRecorded report stakeholder v requirement s.feedback
                  (named_requirement-id s.requirements report stakeholder v.requirement_id named)
                  one),
          )
    ]

found_satisfied :
    (id : ℕ) (now : Instant) (table : List Requirement) {q : Requirement}
    → find_first
        (λ r. r.id == id)
        (update_where (λ r. r.id == id) (set_status RequirementStatus.satisfied now) table)
      ≡ some q
    → is_satisfied q.status ≡ true
found_satisfied id now [] h = cc
found_satisfied id now (r ∷ table) {q} h = elim (Bool-cases (r.id == id)) [
  | inl hit ↦
      let same : set_status RequirementStatus.satisfied now r ≡ q =
        let k = rw (hit, hit) at h in cc in
      rw (← same) refl
  | inr miss ↦ found_satisfied id now table (rw (miss, miss) at h)
]

closes :
    (v : Verdict) (report : Report) (stakeholder : User) (requirement : Option Requirement)
    (table : List Requirement) (id : ℕ)
    → named_requirement table report stakeholder (some id) ≡ ok requirement
    → ((q : Requirement)
        → is_met v.satisfaction ≡ true
        → find_first (λ r. r.id == id) (close_loop v requirement table) ≡ some q
        → is_satisfied q.status ≡ true)
      × (is_met v.satisfaction ≡ false → close_loop v requirement table ≡ table)
unfolding close_loop named_requirement
closes v report stakeholder none table id h =
    elim (Option-cases (find_first (λ r. r.id == id) table)) [
      | inl missing ↦ ground arith
      | inr (r, found) ↦ ground arith
    ]
closes v report stakeholder (some r) table id h =
    elim (Option-cases (find_first (λ q. q.id == id) table)) [
      | inl missing ↦ ground arith
      | inr (q, found) ↦
          let same : q ≡ r = ground arith in
          let is_id : (r.id == id) ≡ true =
            rw (← same)
              (find_first_sound (λ q. Unit {0}) (λ q. q.id == id) table q (All-unit table)
                found).1 in
          let the_id : r.id ≡ id = (==_iff r.id id).0 is_id in
          (
            (λ p met there. elim (Bool-cases (is_satisfied r.status)) [
              | inl already ↦
                  let k = rw (met, already) at there in let first : p ≡ r = cc in rw first already
              | inr open_yet ↦
                  found_satisfied id v.closed table
                    (let k = rw (met, open_yet, the_id) at there in k)
            ]),
            (λ unmet. rw unmet refl),
          )
    ]

-- A verdict closes the loop: after a "met" on a requirement that the stakeholder names, that requirement
-- is satisfied.
submit_feedback-closes :
    (s : Store) (report : Report) (stakeholder : User) (v : Verdict) (id : ℕ) {after : Store}
    {q : Requirement}
    → submit_feedback s report stakeholder v ≡ ok after
    → v.requirement_id ≡ some id
    → is_met v.satisfaction ≡ true
    → find_first (λ r. r.id == id) after.requirements ≡ some q
    → is_satisfied q.status ≡ true
unfolding submit_feedback
submit_feedback-closes s report stakeholder v id {after} {q} done names met there =
    elim (Result-cases (named_requirement s.requirements report stakeholder v.requirement_id)) [
      | inr (e, refused) ↦ ground arith
      | inl (requirement, named) ↦
          let kept : after.requirements ≡ close_loop v requirement s.requirements = ground arith in
          (closes v report stakeholder requirement s.requirements id (rw names at named)).0 q met
            (rw kept at there)
    ]
