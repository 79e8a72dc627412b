-- ===== src/Witnesses/Coordinator.antt =====
-- The contracts of evidence of the coordinator at a concrete task.
use mathlib.Core.Option
use qingtian_ai.Engine.Lease.Evidence.{
  Counts, EvidenceContract, Ledger, Machine, contract_for, contract_of, counted, is_in, is_kept,
  is_local_artifact, is_met, is_of, is_required, is_satisfied_by, is_verified, item_of_kind,
  missing_completion_evidence, newest_first, profile_of, put_contract, put_contracts, relax,
  required_by_profile, required_evidence, required_for_task, sync_evidence_contracts, sync_one,
  sync_task, sync_tasks,
}
use qingtian_ai.Engine.Lease.Gate.{satisfied_completes}
use qingtian_ai.Engine.Lease.Newest.{Newest}
use qingtian_ai.Engine.Lease.Required.{contracts_exact}
use qingtian_ai.Prelude.{
  Bool, List, String, [], all, any, count, false, filter, first, none, order_by, place, refl, some,
  true, ◌&&◌, ◌==◌, ◌∷◌, ◌≡◌,
}

abbrev plain_machine : Machine
plain_machine = record { lower = λ s. s; exists = λ _. false; has_git = λ _. false }

abbrev audited : Ledger
audited = record {
  tasks =
      record {
        id = "t";
        state = "REVIEW";
        evidence_profile = "qa";
        worker_type = "cli";
        repository = "";
        requires_deploy = false;
      }
      ∷ [];
  evidence =
      record { id = 1; task_id = "t"; kind = "test"; verified = false }
      ∷ record { id = 2; task_id = "t"; kind = "test"; verified = true }
      ∷ [];
  contracts =
      record {
        task_id = "t";
        kind = "commit";
        required = true;
        satisfied = false;
        evidence_id = none;
        updated_at = 1;
      }
      ∷ [];
}

abbrev audited_contracts : List EvidenceContract
audited_contracts =
    record {
      task_id = "t";
      kind = "commit";
      required = false;
      satisfied = false;
      evidence_id = none;
      updated_at = 9;
    }
    ∷ record {
      task_id = "t";
      kind = "test";
      required = true;
      satisfied = true;
      evidence_id = some 2;
      updated_at = 9;
    }
    ∷ []

contracts_exact_example :
    (result : List EvidenceContract × Counts) × (sync_evidence_contracts plain_machine 9 audited
      ≡ some result)
    × ((k : String)
        → (verified : Bool) × Newest
            (λ e. e.task_id == "t" && e.kind == k)
            audited.evidence
            verified
          × (is_required (contract_of "t" k result.0) ≡ any (λ j. j == k) ("test" ∷ []))
          × (is_met (contract_of "t" k result.0) ≡ (any (λ j. j == k) ("test" ∷ []) && verified)))
unfolding any first is_kept required_evidence required_for_task required_by_profile profile_of
contracts_exact_example = contracts_exact plain_machine 9 audited "t" ("test" ∷ []) refl refl

satisfied_completes_example : missing_completion_evidence plain_machine audited "t" ≡ some []
unfolding any filter first is_kept required_evidence required_for_task required_by_profile
    profile_of is_local_artifact sync_evidence_contracts sync_tasks sync_one sync_task Option.bind
    counted put_contracts put_contract contract_for relax is_of is_in item_of_kind newest_first
    order_by place is_verified is_satisfied_by count all contract_of is_met
satisfied_completes_example =
    satisfied_completes plain_machine 9 audited "t" ("test" ∷ []) audited_contracts
      (record { contracts = 1; satisfied = 1; missing = 0 }) refl refl refl refl
