-- ===== src/Sample.antt =====
-- A small database, requests and a stand-in for SHA-256, which the tests run the program on.
use cargo_execution_assistan.Prelude.{
  ℕ, ◌+◌, ◌-◌, map, true, none, some, List, [], ◌∷◌, length, take, Result, ok, err,
}
use cargo_execution_assistan.Text.{codes, text_eq}
use cargo_execution_assistan.Canonical.{zero_hash}
use cargo_execution_assistan.Validation.Entry.{CanonicalEntryRecord}
use cargo_execution_assistan.Database.{
  Database, Supply, open_state, exception_opened, available, edit_approve, reject,
}
use cargo_execution_assistan.Sessions.{Crypto}
use cargo_execution_assistan.Sessions.SignIn.{SignInInput, SignInSupply}
use cargo_execution_assistan.Http.{WebRuntime}
use cargo_execution_assistan.Decision.Planning.{DecisionCreateRequest}
use cargo_execution_assistan.Decision.Replay.{DecisionPrincipal}

-- 32 bytes that depend on the length of the message.
abbrev pub checksum : List ℕ → List ℕ
checksum m = take 32 (length m ∷ zero_hash)

abbrev pub entry_values : CanonicalEntryRecord
entry_values = record {
  entry_number = some (codes "ENT-1");
  importer_of_record_id = none;
  port_of_entry_code = none;
  mode_of_transport = none;
  carrier_code = none;
  conveyance_name = none;
  bill_of_lading_number = none;
  air_waybill_number = none;
  country_of_origin_code = none;
  goods_description = some (codes "goods");
  quantity = none;
  quantity_uom = none;
  declared_value_usd = none;
  arrival_date = none;
}

-- One open case with a proposal for its carrier.
abbrev pub database : Database
database = record {
  specialists =
      record {
        id = codes "s1";
        email = codes "ada@port.gov";
        display_name = codes "Ada";
        password_hash = codes "$ada$";
        is_active = true;
        last_sign_in_at = none;
      }
      ∷ [];
  sessions = [];
  cargo_entries =
      record {
        id = codes "e1";
        case_reference = codes "CE-2026-000001";
        created_by = codes "s1";
        received_at = 1789137127000;
        receipt_outcome = exception_opened;
        values = entry_values;
      }
      ∷ [];
  field_origins = [];
  validation_results = [];
  validation_findings = [];
  exceptions =
      record {
        id = codes "x1";
        entry_id = codes "e1";
        validation_result_id = codes "v1";
        receipt_position = 1;
        state = open_state;
        closed_at = none;
        decision_id = none;
      }
      ∷ [];
  recommendations = record { id = codes "r1"; exception_id = codes "x1"; status = available } ∷ [];
  recommendation_values =
      record {
        recommendation_id = codes "r1";
        field_name = codes "carrier_code";
        proposed_value = codes "MAEU";
      }
      ∷ [];
  decisions = [];
  decision_values = [];
  audit_entries = [];
}

abbrev pub ada : DecisionPrincipal
ada = record { id = codes "s1"; display_name = codes "Ada" }

abbrev pub supply : Supply
supply = record { now = 1789137127512; decision_id = codes "d1"; audit_entry_id = codes "a1" }

-- The proposal, with a space behind it.
abbrev pub edit : DecisionCreateRequest
edit = record {
  decision_type = edit_approve;
  reason = some (codes "checked with the carrier");
  recommendation_id = some (codes "r1");
  resolution_values =
      some (record { field_name = codes "carrier_code"; value = codes "MAEU " } ∷ []);
}

abbrev pub rejection : DecisionCreateRequest
rejection = record {
  decision_type = reject;
  reason = some (codes "the proposal is wrong");
  recommendation_id = none;
  resolution_values = none;
}

-- What a computation returns, or else the given value.
abbrev pub from_ok : {E : Type 0} {A : Type 0} → A → Result E A → A
from_ok a (ok b) = b
from_ok a (err e) = a

-- Stand-ins for the packages of the session service: one password fits every hash.
abbrev pub crypto : Crypto
crypto = record {
  sha256 = checksum;
  verify = λ hash password. some (text_eq password (codes "correct horse"));
  to_lower = λ s. s;
}

abbrev pub ada_signs_in : SignInInput
ada_signs_in = record {
  email = codes " ada@port.gov";
  password = codes "correct horse";
  user_agent = none;
}

abbrev pub sign_in_supply : SignInSupply
sign_in_supply = record {
  now = 1_000;
  created_at = 1_500;
  session_id = codes "se1";
  token = codes "t1";
  csrf_token = codes "csrf1";
}

-- URI components as texts beyond the basic plane, without spaces and separators.
abbrev pub runtime : WebRuntime
runtime = record {
  to_upper = λ s. s;
  encode_uri_component = λ s. map (λ c. c + 65_536) s;
  decode_uri_component = λ s. some (map (λ c. c - 65_536) s);
}
