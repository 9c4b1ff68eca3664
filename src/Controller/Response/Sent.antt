-- ===== src/Controller/Response/Sent.antt =====
-- What reaches the caller of a catalog request.
use mathlib.Core.Option.{some-injective}
use old_broker_repo.Prelude.{
  ℕ, Text, codes, [], ◌∷◌, ◌++◌, Option, none, some, Error, inl, inr, ◌≡◌, ◌≢◌, false, Option-cases,
  List, ◌∙◌, subst, sym,
}
use old_broker_repo.Controller.Response.{
  Event, set_header, write_header, write_body, after_write, write_response,
}
use old_broker_repo.Controller.Response.Format.{percent, is_flag, is_other, print_format}
use old_broker_repo.Controller.Response.Format.Percent.{
  NoPercent, print_format_verbatim, print_format_corrupt,
}

-- An encoded object with no percent sign is sent as JSON, with the status and as it was encoded; a
-- second status follows exactly where the writer reported an error.
pub write_response_verbatim :
    (code : ℕ) (text : Text) (write_error : Option Error)
    → NoPercent text
    → write_response code (inr text) write_error
      ≡ some (
          set_header (codes "content-type") (codes "application/json")
          ∷ write_header code
          ∷ write_body text
          ∷ after_write write_error)
unfolding write_response
write_response_verbatim code text write_error h = rw (print_format_verbatim text h, write_response)

-- The body of the answer.
abbrev pub body_of : List Event → Option Text
body_of [] = none
body_of (write_body t ∷ events) = some t
body_of (_ ∷ events) = body_of events

-- An encoded object whose first percent sign stands before an ASCII character that is not a flag, a
-- percent sign, a digit, a point, a star, a bracket or an exclamation mark is not sent as it was
-- encoded, since it is used as a format, where the formatting of the rest too is modelled, that is
-- where something is sent at all.
pub write_response_corrupt :
    (code : ℕ) (before after : Text) (c : ℕ) (write_error : Option Error) (events : List Event)
    → NoPercent before
    → is_flag c ≡ false
    → c ≢ percent
    → is_other c ≡ false
    → write_response code (inr (before ++ percent ∷ c ∷ after)) write_error ≡ some events
    → body_of events ≢ some (before ++ percent ∷ c ∷ after)
unfolding write_response
write_response_corrupt code before after c write_error events h f p o e b =
    elim (Option-cases (print_format (before ++ percent ∷ c ∷ after))) [
      | inl q ↦ cc (rw (q, write_response) at e)
      | inr (body, q) ↦
          let sent = rw (q, write_response) at e in
          print_format_corrupt before after c h f p o (
            q
            ∙ subst (λ x. body_of x ≡ some (before ++ percent ∷ c ∷ after))
                (sym (some-injective _ _ sent)) b)
    ]
