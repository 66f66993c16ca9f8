-- ===== src/Validation/Rules.antt =====
-- server/src/services/validation/rules.ts: the 31 rules, in the order of the registry. Each child
-- holds the rules of a group of fields; this file is the registry.
pub mod Common
pub mod Identity
pub mod Transport
pub mod Goods
pub mod Arrival
use cargo_execution_assistan.Prelude.{List, [], ◌∷◌}
use cargo_execution_assistan.Text.{Platform}
use cargo_execution_assistan.Validation.Rule.{RuleDefinition}
use Identity.{
  entry_number_present, entry_number_format, importer_present, importer_format, port_present,
  port_format, port_known,
}
use Transport.{
  mode_present, mode_known, carrier_present, carrier_format, conveyance_present, document_present,
  air_waybill_format, bill_of_lading_format, document_conflict,
}
use Goods.{
  country_present, country_format, country_known, goods_present, goods_length, goods_specific,
  quantity_present, quantity_positive, uom_present, uom_known, value_present, value_valid,
}
use Arrival.{arrival_present, arrival_real, arrival_window}

module _ (p : Platform) where
  -- `RULES`
  unfoldable pub rules : List RuleDefinition
  unfolding entry_number_present entry_number_format importer_present importer_format port_present
      port_format port_known mode_present mode_known carrier_present carrier_format
      conveyance_present document_present air_waybill_format bill_of_lading_format document_conflict
      country_present country_format country_known goods_present goods_length goods_specific
      quantity_present quantity_positive uom_present uom_known value_present value_valid
      arrival_present arrival_real arrival_window
  rules =
      entry_number_present p
      ∷ entry_number_format p
      ∷ importer_present p
      ∷ importer_format p
      ∷ port_present p
      ∷ port_format p
      ∷ port_known p
      ∷ mode_present p
      ∷ mode_known p
      ∷ carrier_present p
      ∷ carrier_format p
      ∷ conveyance_present p
      ∷ document_present p
      ∷ air_waybill_format p
      ∷ bill_of_lading_format p
      ∷ document_conflict p
      ∷ country_present p
      ∷ country_format p
      ∷ country_known p
      ∷ goods_present p
      ∷ goods_length p
      ∷ goods_specific p
      ∷ quantity_present p
      ∷ quantity_positive p
      ∷ uom_present p
      ∷ uom_known p
      ∷ value_present p
      ∷ value_valid p
      ∷ arrival_present p
      ∷ arrival_real p
      ∷ arrival_window p
      ∷ []
