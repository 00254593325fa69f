-- ===== src/Dissemination/Delivery.antt =====
-- The feed records: who gets one, that nobody gets two, and that delivering again changes nothing.
use mathlib.Core.Path.{subst}
use iceberg_cti.Base.{
  elem, nat_eq, sym, find_first-append, find_first-append_some, is_some, ℕ, ◌≡◌, refl, Bool, true,
  false, ◌&&◌, Option, none, some, List, [], ◌∷◌, ◌++◌, String, All, find_first_sound, Option-cases,
  inl, inr, is_some, arith, ◌==◌,
}
use iceberg_cti.Models.{Tlp, User, Report, DisseminationEvent, Instant}
use iceberg_cti.Dissemination.{matched_stakeholders}
use iceberg_cti.Dissemination.Feed.{
  event_of, user_by_id, narrowed, targets, feed_event, deliver, disseminate,
}
use iceberg_cti.Dissemination.Match.{IsMatch, matched_stakeholders-IsMatch}

narrowed-All :
    (P : User → Type 0) (users : List User) (ids : List ℕ)
    → All P users
    → All P (narrowed users ids)
narrowed-All P users [] h = tt
narrowed-All P users (i ∷ is) h = elim (Option-cases (user_by_id users i)) [
  | inl unknown ↦ rw (unknown, narrowed) (narrowed-All P users is h)
  | inr (u, known) ↦
      rw (known, narrowed)
        (
          (find_first_sound P (λ (x : User). x.id == i) users u h known).0,
          narrowed-All P users is h,
        )
]

user_by_id-id : (users : List User) (i : ℕ) {u : User} → user_by_id users i ≡ some u → u.id ≡ i
user_by_id-id [] i h = cc
user_by_id-id (v ∷ vs) i {u} h = ground (arith, user_by_id-id vs i {u = u})

-- A narrowed list holds only users whose ids are asked for.
pub narrowed-asked :
    (users : List User) (ids asked : List ℕ)
    → All (λ i. elem i asked ≡ true) ids
    → All (λ u. elem u.id asked ≡ true) (narrowed users ids)
narrowed-asked users [] asked h = tt
narrowed-asked users (i ∷ is) asked h = elim (Option-cases (user_by_id users i)) [
  | inl unknown ↦ rw (unknown, narrowed) (narrowed-asked users is asked h.1)
  | inr (u, known) ↦
      rw (known, narrowed)
        (
          subst (λ k. elem k asked ≡ true) (sym (user_by_id-id users i known)) h.0,
          narrowed-asked users is asked h.1,
        )
]

targets-All :
    (P : User → Type 0) (users : List User) (ids : Option (List ℕ))
    → All P users
    → All P (targets users ids)
targets-All P users none h = h
targets-All P users (some ids) h = narrowed-All P users ids h

pub deliver-All :
    (P : User → Type 0) (report : Report) (rival : ℕ → Option DisseminationEvent) (now : Instant)
    (us : List User) (events : List DisseminationEvent)
    → All P us
    → All P (deliver report rival now us events).0
unfolding deliver
deliver-All P report rival now [] events h = tt
deliver-All P report rival now (u ∷ us) events h =
    elim (Option-cases (event_of events report.id u.id)) [
      | inr (old, known) ↦ rw (known, deliver) (deliver-All P report rival now us events h.1)
      | inl new ↦ elim (Option-cases (rival u.id)) [
        | inr (row, raced) ↦
            rw (new, deliver, raced) (deliver-All P report rival now us (events ++ row ∷ []) h.1)
        | inl alone ↦
            rw (new, deliver, alone)
              (h.0, deliver-All P report rival now us (events ++ feed_event report u now ∷ []) h.1)
      ]
    ]

-- A recipient list handed in can only narrow the audience: every user who newly receives the report is
-- a stakeholder whom its marking, level, topics and scope authorise, whatever ids are asked for.
pub disseminate-IsMatch :
    (name_le : String → String → Bool) (ceiling : Tlp) (users : List User) (report : Report)
    (recipient_ids : Option (List ℕ)) (rival : ℕ → Option DisseminationEvent) (now : Instant)
    (events : List DisseminationEvent)
    → All
        (λ u. IsMatch ceiling report u)
        (disseminate name_le ceiling users report recipient_ids rival now events).0
unfolding disseminate
disseminate-IsMatch name_le ceiling users report recipient_ids rival now events =
    deliver-All (IsMatch ceiling report) report rival now _ events (
      targets-All (IsMatch ceiling report) _ recipient_ids
        (matched_stakeholders-IsMatch name_le ceiling users report))

-- The database's constraint: no two records have one report and stakeholder.
abbrev pub HasUniqueEvents : List DisseminationEvent → Type 0
HasUniqueEvents [] = Unit
HasUniqueEvents (e ∷ es) = (event_of es e.report_id e.stakeholder_id ≡ none) × HasUniqueEvents es

event_of-append_other :
    (es : List DisseminationEvent) (r s : ℕ) (e : DisseminationEvent)
    → event_of es r s ≡ none
    → ((e.report_id == r) && (e.stakeholder_id == s)) ≡ false
    → event_of (es ++ e ∷ []) r s ≡ none
event_of-append_other [] r s e h ne = ground arith
event_of-append_other (f ∷ fs) r s e h ne = ground (arith, event_of-append_other fs r s e)

HasUniqueEvents-append :
    (es : List DisseminationEvent) (e : DisseminationEvent)
    → HasUniqueEvents es
    → event_of es e.report_id e.stakeholder_id ≡ none
    → HasUniqueEvents (es ++ e ∷ [])
HasUniqueEvents-append [] e u h = (refl, tt)
HasUniqueEvents-append (f ∷ fs) e u h =
    ground
      (arith, HasUniqueEvents-append fs e, event_of-append_other fs f.report_id f.stakeholder_id e)

-- What a concurrent publisher commits is a record of this report and the stakeholder at hand.
abbrev pub IsRival : Report → (ℕ → Option DisseminationEvent) → Type 0
IsRival report rival =
    (i : ℕ) (row : DisseminationEvent)
    → rival i ≡ some row
    → (row.report_id ≡ report.id) × (row.stakeholder_id ≡ i)

-- What a delivery leaves behind for the users it went through.
pub record IsDelivered (report : Report) (us : List User) (before after : List DisseminationEvent)
    : Type 0 where
  pub unique : HasUniqueEvents after
  pub kept : (r i : ℕ) → is_some (event_of before r i) ≡ true → is_some (event_of after r i) ≡ true
  pub each : All (λ u. is_some (event_of after report.id u.id) ≡ true) us

kept_append :
    (es fs : List DisseminationEvent) (r i : ℕ)
    → is_some (event_of es r i) ≡ true
    → is_some (event_of (es ++ fs) r i) ≡ true
kept_append es fs r i h = elim (Option-cases (event_of es r i)) [
  | inl gone ↦ ground arith
  | inr (e, found) ↦
      rw
        (find_first-append_some
          (λ (x : DisseminationEvent). (x.report_id == r) && (x.stakeholder_id == i)) es fs e found)
        refl
]

added :
    (es : List DisseminationEvent) (e : DisseminationEvent)
    → event_of es e.report_id e.stakeholder_id ≡ none
    → is_some (event_of (es ++ e ∷ []) e.report_id e.stakeholder_id) ≡ true
added es e h =
    rw
      (find_first-append
        (λ (x : DisseminationEvent).
          (x.report_id == e.report_id) && (x.stakeholder_id == e.stakeholder_id))
        es (e ∷ []) h)
      (ground arith)

-- One record more, of the report and a stakeholder who had none.
IsDelivered-one :
    (report : Report) (u : User) (us : List User) (e : DisseminationEvent)
    (before after : List DisseminationEvent)
    → event_of before report.id u.id ≡ none
    → e.report_id ≡ report.id
    → e.stakeholder_id ≡ u.id
    → IsDelivered report us (before ++ e ∷ []) after
    → IsDelivered report (u ∷ us) before after
IsDelivered-one report u us e before after new r i d = record {
  unique = d.unique;
  kept = λ r i h. d.kept r i (kept_append before (e ∷ []) r i h);
  each = (d.kept report.id u.id (rw (← r, ← i) (added before e (rw (r, i) new))), d.each);
}

deliver-IsDelivered :
    (report : Report) (rival : ℕ → Option DisseminationEvent) (now : Instant) (us : List User)
    (events : List DisseminationEvent)
    → IsRival report rival
    → HasUniqueEvents events
    → IsDelivered report us events (deliver report rival now us events).1
unfolding deliver
deliver-IsDelivered report rival now [] events ok_rival u = record {
  unique = u;
  kept = λ r i h. h;
  each = tt;
}
deliver-IsDelivered report rival now (v ∷ us) events ok_rival u =
    elim (Option-cases (event_of events report.id v.id)) [
      | inr (old, known) ↦
          let d = deliver-IsDelivered report rival now us events ok_rival u in
          rw (known, deliver)
            (record {
              unique = d.unique;
              kept = d.kept;
              each = (d.kept report.id v.id (rw known refl), d.each);
            })
      | inl new ↦ elim (Option-cases (rival v.id)) [
        | inr (row, raced) ↦
            let (r, i) = ok_rival v.id row raced in
            rw (new, deliver, raced)
              (IsDelivered-one report v us row events _ new r i (
                deliver-IsDelivered report rival now us _ ok_rival
                  (HasUniqueEvents-append events row u (rw (r, i) new))))
        | inl alone ↦
            rw (new, deliver, alone)
              (IsDelivered-one report v us (feed_event report v now) events _ new refl refl (
                deliver-IsDelivered report rival now us _ ok_rival
                  (HasUniqueEvents-append events (feed_event report v now) u new)))
      ]
    ]

deliver_known :
    (report : Report) (rival : ℕ → Option DisseminationEvent) (now : Instant) (us : List User)
    (events : List DisseminationEvent)
    → All (λ u. is_some (event_of events report.id u.id) ≡ true) us
    → deliver report rival now us events ≡ ([], events)
unfolding deliver
deliver_known report rival now [] events h = refl
deliver_known report rival now (v ∷ us) events h =
    elim (Option-cases (event_of events report.id v.id)) [
      | inl gone ↦ ground arith
      | inr (old, known) ↦ rw (known, deliver) (deliver_known report rival now us events h.1)
    ]

-- Where no stakeholder has two records of one report before, and a concurrent publisher commits
-- only records of this report and of the stakeholder at hand: nobody has two afterwards, no
-- record is lost, every target has one; and delivering the same report to the same audience
-- again, at any later time, notifies nobody and writes nothing.
pub disseminate_idempotent :
    (name_le : String → String → Bool) (ceiling : Tlp) (users : List User) (report : Report)
    (recipient_ids : Option (List ℕ)) (rival rival' : ℕ → Option DisseminationEvent)
    (now now' : Instant) (events : List DisseminationEvent)
    → IsRival report rival
    → HasUniqueEvents events
    → let after = (disseminate name_le ceiling users report recipient_ids rival now events).1 in
      IsDelivered report
        (targets (matched_stakeholders name_le ceiling users report) recipient_ids)
        events
        after
      × (disseminate name_le ceiling users report recipient_ids rival' now' after ≡ ([], after))
unfolding disseminate
disseminate_idempotent name_le ceiling users report recipient_ids rival rival' now now' events r u =
    let d =
      deliver-IsDelivered report rival now
        (targets (matched_stakeholders name_le ceiling users report) recipient_ids) events r u in
    (d, deliver_known report rival' now' _ _ d.each)
