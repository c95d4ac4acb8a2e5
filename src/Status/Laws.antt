-- ===== src/Status/Laws.antt =====
-- When a lease is live, and what an inventory item that needs no attention has shown.
use g_sentinel.Base.{ℕ, ◌<◌, String, true, ◌≡◌, arith, ◌↔◌, ◌⊎◌, lower}
use g_sentinel.Status.{
  ProofLockRecord, Gate, Consumer, active, expiring, lease_status, safe_seconds, Detail,
  InventoryItem, GateReasonCode, gate_reason_meta, find_reason,
}

-- A lease is live, ACTIVE or EXPIRING, exactly when the lock is active, fully covered and not past
-- its end.
pub lease_status-live :
    (lock : ProofLockRecord) (now_seconds : ℕ)
    → ((lease_status lock now_seconds ≡ active) ⊎ (lease_status lock now_seconds ≡ expiring))
      ↔ ((lock.state ≡ 1) × (lock.coverage ≡ 127) × (now_seconds < safe_seconds lock.valid_until))
unfolding lease_status
lease_status-live lock now_seconds = ((λ h. ground arith), λ h. ground arith)

-- What the gate and the consumer say of an agent that they admit.
pub record Admits (lock : ProofLockRecord) (gate : Gate) (consumer : Consumer) (wallet : String)
    : Type 0 where
  pub gate_subject : String
  pub consumer_subject : String
  pub gate_read : gate ≡ Gate.verified true 0 gate_subject lock.version
  pub consumer_read : consumer ≡ Consumer.verified true consumer_subject lock.version
  pub wallet_matches : lower wallet ≡ lower lock.subject
  pub gate_matches : lower gate_subject ≡ lower lock.subject
  pub consumer_matches : lower consumer_subject ≡ lower lock.subject

-- A verified item with an active lease, which the gate and the consumer admit.
pub record NeedsNothing (item : InventoryItem) (now_seconds : ℕ) : Type 0 where
  pub key : String
  pub block : ℕ
  pub lock : ProofLockRecord
  pub wallet : String
  pub gate : Gate
  pub consumer : Consumer
  pub is_item : item ≡ InventoryItem.verified key block lock (Detail.verified wallet gate consumer)
  pub is_live : lease_status lock now_seconds ≡ active
  pub admits : Admits lock gate consumer wallet

-- Only the code 0 means that the gate let the agent through.
pub gate_reason_meta-allowed : (r : ℕ) → (gate_reason_meta r).code ≡ GateReasonCode.allowed → r ≡ 0
unfolding gate_reason_meta find_reason
gate_reason_meta-allowed r h = ground arith
