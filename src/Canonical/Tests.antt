-- ===== src/Canonical/Tests.antt =====
-- The theorem on the order of values, applied to an entry with two of them.
use cargo_execution_assistan.Prelude.{◌≡◌, refl, true, none, some, [], ◌∷◌}
use cargo_execution_assistan.Text.{Text, codes}
use cargo_execution_assistan.Canonical.{
  human, AuditValue, AuditEntry, compute_entry_hash, zero_hash,
}
use cargo_execution_assistan.Canonical.Order.{IsKeyed, compute_entry_hash-Permᴰ}
use cargo_execution_assistan.Sample.{checksum}
use mathlib.Core.List.{Permᴰ}

abbrev typed : Text → Text → AuditValue
typed field value = record {
  field_name = field;
  before_value = none;
  before_origin = none;
  after_value = some value;
  after_origin = some human;
  changed = true;
}

abbrev quantity : AuditValue
quantity = typed (codes "quantity") (codes "12")

abbrev carrier : AuditValue
carrier = typed (codes "carrier_code") (codes "MAEU")

abbrev received : AuditEntry
received = record {
  case_id = codes "e1";
  case_sequence = 1;
  action_type = codes "ENTRY_RECEIVED";
  actor_type = codes "SPECIALIST";
  actor_specialist_id = some (codes "s1");
  occurred_at = 1789137127512;
  exception_id = none;
  recommendation_id = none;
  decision_id = none;
  before_state = none;
  after_state = codes "RECEIVED";
  reason = none;
  request_id = none;
  values = quantity ∷ carrier ∷ [];
}

received-IsKeyed : IsKeyed (λ (v : AuditValue). v.field_name) received.values
received-IsKeyed = ((λ e. cc, tt), (tt, tt))

compute_entry_hash-Permᴰ_example :
    compute_entry_hash checksum received zero_hash
    ≡ compute_entry_hash checksum (record received { values = carrier ∷ quantity ∷ [] }) zero_hash
compute_entry_hash-Permᴰ_example =
    compute_entry_hash-Permᴰ checksum received (carrier ∷ quantity ∷ []) zero_hash
      (Permᴰ.swap refl refl) received-IsKeyed
