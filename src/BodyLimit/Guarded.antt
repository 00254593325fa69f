-- ===== src/BodyLimit/Guarded.antt =====
-- The variables of the guard at each moment, and the answer after an overflow.
use iceberg_cti.BodyLimit.{
  finish, initial, Ending, handle_all, is_start, rejection, Incoming, Call, handle, send_tracked,
  Guard, Outgoing, receive_guarded,
}
use iceberg_cti.Base.{
  ◌∙◌, any_of, [], ◌∷◌, refl, arith, inl, inr, true, false, nat_eq, string_eq, ◌≡◌, ◌≤◌, ◌<◌, ◌++◌,
  ◌||◌, Bool, List, ℕ, Bool-cases,
}

-- The statuses that are sent.
abbrev pub statuses : List Outgoing → List ℕ
statuses [] = []
statuses (Outgoing.response_start status ∷ sent) = status ∷ statuses sent
statuses (Outgoing.response_body text ∷ sent) = statuses sent

statuses-append : (xs ys : List Outgoing) → statuses (xs ++ ys) ≡ statuses xs ++ statuses ys
statuses-append [] ys = refl
statuses-append (Outgoing.response_start status ∷ xs) ys = rw (statuses-append xs ys) refl
statuses-append (Outgoing.response_body text ∷ xs) ys = statuses-append xs ys

-- What holds of the guard at each moment.
pub record IsGuarded (max_bytes : ℕ) (g : Guard) : Type 0 where
  pub passed_within : g.passed ≤ max_bytes
  pub passed_seen : g.passed ≤ g.seen
  pub all_passed : g.overflowed ≡ false → g.passed ≡ g.seen
  pub over : g.overflowed ≡ true → max_bytes < g.seen
  pub rejected_over : g.rejected ≡ true → g.overflowed ≡ true
  pub rejected_started : g.rejected ≡ true → g.started ≡ true
  pub unstarted : g.started ≡ false → statuses g.sent ≡ []

handle-IsGuarded :
    (max_bytes : ℕ) (g : Guard) (c : Call)
    → IsGuarded max_bytes g
    → IsGuarded max_bytes (handle max_bytes g c)
unfolding receive_guarded send_tracked handle
handle-IsGuarded max_bytes g (Call.receiving Incoming.disconnect) h = h
handle-IsGuarded max_bytes g (Call.receiving (Incoming.request n)) h = ground arith
handle-IsGuarded max_bytes g (Call.sending (Outgoing.response_start status)) h = ground (arith)
handle-IsGuarded max_bytes g (Call.sending (Outgoing.response_body text)) h =
    ground (arith, statuses-append g.sent (Outgoing.response_body text ∷ []))

-- Whatever the client sends and the application does, in whatever order, the application is handed at most
-- the limit: where the guard's variables are in order, they stay so, the bytes handed on are at most the
-- limit and are all the bytes that came until the limit is crossed, and a response is replaced only
-- after that.
pub handle_all-IsGuarded :
    (max_bytes : ℕ) (g : Guard) (calls : List Call)
    → IsGuarded max_bytes g
    → IsGuarded max_bytes (handle_all max_bytes g calls)
unfolding handle_all
handle_all-IsGuarded max_bytes g [] h = h
handle_all-IsGuarded max_bytes g (c ∷ calls) h =
    handle_all-IsGuarded max_bytes (handle max_bytes g c) calls (handle-IsGuarded max_bytes g c h)

abbrev is_answer : Call → Bool
is_answer (Call.receiving message) = false
is_answer (Call.sending message) = is_start message

abbrev is_too_large : Ending → Bool
is_too_large Ending.too_large = true
is_too_large _ = false

-- The client is told that the body is too large, or not yet told anything.
abbrev verdict : Bool → List ℕ
verdict true = 413 ∷ []
verdict false = []

record IsRefusing (answered : Bool) (g : Guard) : Type 0 where
  is_over : g.overflowed ≡ true
  is_rejected : g.rejected ≡ answered
  is_started : g.started ≡ answered
  told : statuses g.sent ≡ verdict answered

handle-IsRefusing :
    (max_bytes : ℕ) (answered : Bool) (g : Guard) (c : Call)
    → max_bytes < g.seen
    → IsRefusing answered g
    → IsRefusing (answered || is_answer c) (handle max_bytes g c)
      × (max_bytes < (handle max_bytes g c).seen)
unfolding handle receive_guarded send_tracked
handle-IsRefusing max_bytes answered g (Call.receiving Incoming.disconnect) over h = ground arith
handle-IsRefusing max_bytes answered g (Call.receiving (Incoming.request n)) over h = ground arith
handle-IsRefusing max_bytes true g (Call.sending (Outgoing.response_start status)) over h =
    ground arith
handle-IsRefusing max_bytes false g (Call.sending (Outgoing.response_start status)) over h =
    let told = statuses-append g.sent rejection in
    rw (send_tracked, h.is_rejected, h.is_over)
      (
        record {
          is_over = refl;
          is_rejected = refl;
          is_started = refl;
          told = told ∙ rw h.told refl;
        },
        over,
      )
handle-IsRefusing max_bytes true g (Call.sending (Outgoing.response_body text)) over h =
    ground arith
handle-IsRefusing max_bytes false g (Call.sending (Outgoing.response_body text)) over h =
    let told = statuses-append g.sent (Outgoing.response_body text ∷ []) in
    rw (send_tracked, h.is_rejected)
      (
        record {
          is_over = h.is_over;
          is_rejected = refl;
          is_started = rw h.is_started refl;
          told = told ∙ rw h.told refl;
        },
        over,
      )

or_assoc : (a b c : Bool) → a || b || c ≡ a || (b || c)
or_assoc true b c = refl
or_assoc false b c = refl

handle_all-IsRefusing :
    (max_bytes : ℕ) (answered : Bool) (g : Guard) (calls : List Call)
    → max_bytes < g.seen
    → IsRefusing answered g
    → IsRefusing (answered || any_of is_answer calls) (handle_all max_bytes g calls)
unfolding handle_all
handle_all-IsRefusing max_bytes true g [] over h = h
handle_all-IsRefusing max_bytes false g [] over h = h
handle_all-IsRefusing max_bytes answered g (c ∷ calls) over h =
    let step = handle-IsRefusing max_bytes answered g c over h in
    let rest =
      handle_all-IsRefusing max_bytes (answered || is_answer c) (handle max_bytes g c) calls step.1
        step.0 in
    rw (← or_assoc answered (is_answer c) (any_of is_answer calls)) rest

pub initial-IsGuarded : (max_bytes : ℕ) → IsGuarded max_bytes initial
initial-IsGuarded max_bytes = ground arith

finish-told :
    (answered : Bool) (g : Guard) (ending : Ending)
    → IsRefusing answered g
    → statuses (finish g ending).sent ≡ verdict (answered || is_too_large ending)
finish-told true g Ending.too_large h = rw h.is_started h.told
finish-told false g Ending.too_large h =
    rw h.is_started (statuses-append g.sent rejection ∙ rw h.told refl)
finish-told true g Ending.returned h = h.told
finish-told false g Ending.returned h = h.told
finish-told true g Ending.other_error h = h.told
finish-told false g Ending.other_error h = h.told

-- If the body crosses the limit before the application has begun to answer, the client is never told
-- anything but 413: whatever the application then receives, sends and raises, the 413 is sent exactly
-- once if the application begins an answer of its own or lets the signal through, and no other status is.
pub overflow_answered :
    (max_bytes : ℕ) (before after : List Call) (ending : Ending)
    → (handle_all max_bytes initial before).overflowed ≡ true
    → (handle_all max_bytes initial before).started ≡ false
    → statuses
        (finish (handle_all max_bytes (handle_all max_bytes initial before) after) ending).sent
      ≡ verdict (any_of is_answer after || is_too_large ending)
overflow_answered max_bytes before after ending crossed unstarted =
    let g = handle_all max_bytes initial before in
    let sound = handle_all-IsGuarded max_bytes initial before (initial-IsGuarded max_bytes) in
    let refusing : IsRefusing false g = record {
      is_over = crossed;
      is_rejected = elim (Bool-cases g.rejected) [
        | inl gone ↦ let begun = sound.rejected_started gone in cc
        | inr not_yet ↦ not_yet
      ];
      is_started = unstarted;
      told = sound.unstarted unstarted;
    } in
    finish-told (any_of is_answer after) (handle_all max_bytes g after) ending
      (handle_all-IsRefusing max_bytes false g after (sound.over crossed) refusing)
