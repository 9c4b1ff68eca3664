-- ===== src/Config/Schema/Validation.antt =====
-- What a validated message and its schema satisfy, and where each error of `validate` comes from.
use old_broker_repo.Prelude.{none, ◌≡◌, ◌≢◌, ◌↔◌, ok, arith}
use old_broker_repo.Config.Label.Correct.{IsLabel, is_dns1123_label_iff}
use old_broker_repo.Config.Codec.{Codec}
use old_broker_repo.Config.Schema.{Schema, run_additional, validate}

module _ {Message : Type 0} (c : Codec Message) (b : Schema Message) (m : Message) where
  -- The conditions of a valid message: labels, a registered type, and the schema's own check.
  pub record IsAcceptable : Type 0 where
    pub type : IsLabel b.type
    pub plural : IsLabel b.plural
    pub registered : c.message_type b.message_name ≢ none
    pub additional : run_additional c b.additional_validate m ≡ ok tt

  -- A message passes validation exactly if the schema's type and plural are labels of RFC 1123, its
  -- message name is registered, and the schema's own check, if it has one, passes.
  pub validate_iff : (validate c b m ≡ ok tt) ↔ IsAcceptable
  unfolding validate
  validate_iff = ground (arith, is_dns1123_label_iff b.type, is_dns1123_label_iff b.plural)
