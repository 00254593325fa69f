-- ===== src/BodyLimit/Tests.antt =====
-- Requests over the limit, answered by applications of several kinds.
use iceberg_cti.BodyLimit.Guarded.{
  initial-IsGuarded, overflow_answered, handle_all-IsGuarded, IsGuarded, statuses,
}
use iceberg_cti.Base.{[], ◌∷◌, refl, some, none, true, false, nat_eq, string_eq, ◌≡◌, List}
use iceberg_cti.BodyLimit.{
  Incoming, Outgoing, finish, rejection, Call, Ending, initial, handle, receive_guarded,
  send_tracked, handle_all, declared_length, serve,
}

abbrev crossing : List Call
crossing = Call.receiving (Incoming.request 6) ∷ Call.receiving (Incoming.request 5) ∷ []

abbrev own_answer : List Call
own_answer =
    Call.sending (Outgoing.response_start 400)
    ∷ Call.sending (Outgoing.response_body "parse error")
    ∷ []

declared_refused :
    serve (λ _. some 11) 10 (("content-length", "11") ∷ []) own_answer Ending.returned ≡ rejection
unfolding serve declared_length
declared_refused = refl

small_passed :
    serve (λ _. none) 10 [] (Call.receiving (Incoming.request 10) ∷ own_answer) Ending.returned
    ≡ Outgoing.response_start 400 ∷ Outgoing.response_body "parse error" ∷ []
unfolding serve declared_length handle_all handle receive_guarded send_tracked
small_passed = refl

handle_all-IsGuarded_example : IsGuarded 10 (handle_all 10 initial crossing)
handle_all-IsGuarded_example = handle_all-IsGuarded 10 initial crossing (initial-IsGuarded 10)

crossed : (handle_all 10 initial crossing).overflowed ≡ true
unfolding handle_all handle receive_guarded
crossed = refl

unstarted : (handle_all 10 initial crossing).started ≡ false
unfolding handle_all handle receive_guarded
unstarted = refl

overflow_answered_example :
    statuses
      (finish (handle_all 10 (handle_all 10 initial crossing) own_answer) Ending.returned).sent
    ≡ 413 ∷ []
overflow_answered_example =
    overflow_answered 10 crossing own_answer Ending.returned crossed unstarted
