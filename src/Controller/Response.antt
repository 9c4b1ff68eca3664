-- ===== src/Controller/Response.antt =====
-- writeResponse of controller.go: what is sent for an object that was or was not encoded.
pub mod Format
pub mod Sent
use old_broker_repo.Prelude.{
  ℕ, Text, codes, List, [], ◌∷◌, ◌++◌, Option, none, some, Error, ◌⊎◌, inl, inr,
}
use old_broker_repo.Controller.Response.Format.{print_format}

-- The calls on a `http.ResponseWriter`, in order.
pub data Event : Type 0 where
  set_header : Text → Text → Event
  write_header : ℕ → Event
  write_body : Text → Event

abbrev pub status_ok : ℕ
status_ok = 200

abbrev status_internal_server_error : ℕ
status_internal_server_error = 500

-- After the body is written: a second status, if the writer reported an error.
unfoldable pub after_write : Option Error → List Event
after_write none = []
after_write (some e) = write_header status_internal_server_error ∷ []

-- `writeResponse(w, code, object)`, where `encoded` is what `json.Marshal(object)` gave and
-- `write_error` what the writer reports for the body. The body is what `Fprintf` makes of the encoded
-- object as a format with no arguments; `none` where `print_format` does not know it.
unfoldable pub write_response : ℕ → Error ⊎ Text → Option Error → Option (List Event)
unfolding after_write
write_response code (inl e) write_error = some (write_header status_internal_server_error ∷ [])
write_response code (inr text) write_error = elim (print_format text) [
  | none ↦ none
  | some body ↦ some (
      set_header (codes "content-type") (codes "application/json")
      ∷ write_header code
      ∷ write_body body
      ∷ after_write write_error)
]
