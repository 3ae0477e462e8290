-- ===== src/Saga/Payout/Machine.antt =====
-- The state machine of a payout: its edges, the retries that stay where they are, and a measure
-- that both decrease.
use ledger_core.Base.{ℕ, suc, ◌+◌, ◌-◌, ◌*◌, ◌<◌, ◌≤◌, arith}
use ledger_core.Saga.Payout.{Config}
use ledger_core.Saga.Types.{Status}

-- The transitions between different states.
pub data Edge : Status → Status → Type 0 where
  reserves : Edge Status.pending Status.reserved
  cannot_reserve : Edge Status.pending Status.failed
  submits : Edge Status.reserved Status.gateway_pending
  pays : Edge Status.gateway_pending Status.gateway_succeeded
  declines : Edge Status.gateway_pending Status.gateway_failed
  gives_up_probing : Edge Status.gateway_pending Status.needs_manual_review
  settles : Edge Status.gateway_succeeded Status.completed
  cannot_settle : Edge Status.gateway_succeeded Status.compensating
  turns_back : Edge Status.gateway_failed Status.compensating
  refunds : Edge Status.compensating Status.compensated
  gives_up_refunding : Edge Status.compensating Status.needs_manual_review

-- All the budgets together.
abbrev pub bound : Config → ℕ
bound cfg = cfg.max_step_attempts + cfg.max_compensation_attempts + cfg.max_probes

-- How many attempts a state has: of a step, of asking the gateway, or of the compensation.
abbrev pub budget : Config → Status → ℕ
budget cfg Status.pending = cfg.max_step_attempts
budget cfg Status.gateway_succeeded = cfg.max_step_attempts
budget cfg Status.gateway_pending = cfg.max_probes
budget cfg Status.compensating = cfg.max_compensation_attempts
budget cfg _ = 0

budget-le-bound : (cfg : Config) (s : Status) → budget cfg s ≤ bound cfg
budget-le-bound cfg s = ground arith

-- One transition of a row: along an edge, with any count of retries, or one more retry in the same
-- state, within its budget.
pub data Step (cfg : Config) : Status → ℕ → Status → ℕ → Type 0 where
  along : {s s' : Status} {r r' : ℕ} → Edge s s' → Step cfg s r s' r'
  again : {s : Status} {r : ℕ} → r + 1 < budget cfg s → Step cfg s r s (r + 1)

-- A chain of them, one at least.
pub data Leads (cfg : Config) : Status → ℕ → Status → ℕ → Type 0 where
  once : {s s' : Status} {r r' : ℕ} → Step cfg s r s' r' → Leads cfg s r s' r'
  then :
      {s s' s'' : Status} {r r' r'' : ℕ}
      → Step cfg s r s' r'
      → Leads cfg s' r' s'' r''
      → Leads cfg s r s'' r''

abbrev rank : Status → ℕ
rank Status.pending = 6
rank Status.reserved = 5
rank Status.gateway_pending = 4
rank Status.gateway_succeeded = 3
rank Status.gateway_failed = 3
rank Status.compensating = 2
rank _ = 0

abbrev pub measure : Config → Status → ℕ → ℕ
measure cfg s r = rank s * suc (bound cfg) + (bound cfg - r)

-- One more retry, of those that are left.
drop_retry : (k b c r : ℕ) → b ≤ c → r + 1 < b → k + (c - (r + 1)) < k + (c - r)
drop_retry k b c r below h = omega arith

Step-measure :
    (cfg : Config) {s s' : Status} {r r' : ℕ}
    → Step cfg s r s' r'
    → measure cfg s' r' < measure cfg s r
Step-measure cfg (along reserves) = omega arith
Step-measure cfg (along cannot_reserve) = omega arith
Step-measure cfg (along submits) = omega arith
Step-measure cfg (along pays) = omega arith
Step-measure cfg (along declines) = omega arith
Step-measure cfg (along gives_up_probing) = omega arith
Step-measure cfg (along settles) = omega arith
Step-measure cfg (along cannot_settle) = omega arith
Step-measure cfg (along turns_back) = omega arith
Step-measure cfg (along refunds) = omega arith
Step-measure cfg (along gives_up_refunding) = omega arith
Step-measure cfg {s} (again h) =
    drop_retry (rank s * suc (bound cfg)) (budget cfg s) (bound cfg) _ (budget-le-bound cfg s) h

-- A drive leaves less to do.
pub Leads-measure :
    (cfg : Config) {s s' : Status} {r r' : ℕ}
    → Leads cfg s r s' r'
    → measure cfg s' r' < measure cfg s r
Leads-measure cfg (once h) = Step-measure cfg h
Leads-measure cfg (then h k) = omega (arith, Step-measure cfg h, Leads-measure cfg k)
