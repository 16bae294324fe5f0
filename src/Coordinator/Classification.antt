-- ===== src/Coordinator/Classification.antt =====
-- The evidence that SEC's journal gives: `sec_classify_import_result` of src/sec_business_key_adapter.cpp.
use iov_vehicle_tbox_tsp.Prelude.{ℕ, List, [], Bool, true, false, ◌&&◌, ℤ, pos, negsuc, leb}

pub data SecImportEvidenceKind : Type 0 where
  committed failed not_found outcome_unknown query_error contract_unknown : SecImportEvidenceKind

-- SEC's states of an import, as far as the source names them; `other_state` is the `default` branch.
pub data BusinessKeyImportState : Type 0 where
  import_requested import_staged import_committed import_failed import_unknown import_not_found
        other_state :
      BusinessKeyImportState

abbrev pub sec_cr021_not_found_contract_version : ℕ
sec_cr021_not_found_contract_version = 2

pub record SecImportEvidence : Type 0 where
  pub kind : SecImportEvidenceKind
  pub sec_import_result_contract_version : ℕ
  pub request_id_digest : List ℕ
  pub observed_store_generation : ℕ
  pub import_invocation_recorded : Bool
  pub pending_callback : Bool
  pub raw_import_state : ℤ
  pub no_residue_proven : Bool

unfoldable pub raw_state_code : BusinessKeyImportState → ℤ
raw_state_code import_requested = pos 0
raw_state_code import_staged = pos 1
raw_state_code import_committed = pos 2
raw_state_code import_failed = pos 3
raw_state_code import_unknown = pos 4
raw_state_code import_not_found = pos 5
raw_state_code other_state = negsuc 0

unfoldable pub kind_of_state : BusinessKeyImportState → SecImportEvidenceKind
kind_of_state import_committed = committed
kind_of_state import_failed = failed
kind_of_state import_not_found = not_found
kind_of_state import_requested = outcome_unknown
kind_of_state import_staged = outcome_unknown
kind_of_state import_unknown = outcome_unknown
kind_of_state other_state = contract_unknown

unfoldable pub is_not_found_state : BusinessKeyImportState → Bool
is_not_found_state import_not_found = true
is_not_found_state _ = false

abbrev pub evidence_of : SecImportEvidenceKind → ℕ → ℤ → Bool → SecImportEvidence
evidence_of kind version raw no_residue = record {
  kind = kind;
  sec_import_result_contract_version = version;
  request_id_digest = [];
  observed_store_generation = 0;
  import_invocation_recorded = false;
  pending_callback = false;
  raw_import_state = raw;
  no_residue_proven = no_residue;
}

-- `ok` says that the query ended with `SUCCESS`.
unfoldable pub sec_classify_import_result : Bool → BusinessKeyImportState → ℕ → SecImportEvidence
sec_classify_import_result false state version =
    evidence_of query_error 0 (raw_state_code state) false
sec_classify_import_result true state version =
    evidence_of (kind_of_state state) version (raw_state_code state)
      (is_not_found_state state && leb sec_cr021_not_found_contract_version version)
