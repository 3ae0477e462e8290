-- ===== src/Projector/Order.antt =====
-- Delivery twice and delivery out of order leave the same balances.
use ledger_core.Base.{
  ◌≡◌, ◌≢◌, refl, List, [], ◌∷◌, true, false, Option, none, some, ◌==◌, arith, Bool-cases, inl, inr,
  ==_self, ==_iff, All, ◌∙◌, sym, ap,
}
use mathlib.Core.Path.{fun_ext}
use ledger_core.Errors.{ok}
use ledger_core.Ledger.Types.{Uuid}
use ledger_core.Ledger.Routing.{mem_id}
use ledger_core.Outbox.{EventBalance, Envelope}
use ledger_core.Projector.{
  Projection, Projections, payload_balances, upsert_row, apply_balance, apply_balances, apply,
}

-- An event that was applied and is delivered again is reported as a duplicate and changes nothing.
pub apply_twice :
    (e : Envelope) (s s' : Projections) → apply e s ≡ (ok true, s') → apply e s' ≡ (ok false, s')
unfolding apply mem_id
apply_twice e s s' h = ground (arith, ==_self e.event_id)

-- Two balances that are not rivals: of different accounts, or different versions of one account in
-- its one currency.
abbrev pub IsApart : EventBalance → EventBalance → Type 0
IsApart b c =
    b.account_id ≡ c.account_id
    → (b.version ≢ c.version) × (b.available.currency ≡ c.available.currency)

abbrev pub AreApart : List EventBalance → List EventBalance → Type 0
AreApart bs cs = All (λ b. All (IsApart b) cs) bs

upsert_row_comm :
    (e f : Uuid) (b c : EventBalance) (row : Option Projection)
    → b.version ≢ c.version
    → b.available.currency ≡ c.available.currency
    → upsert_row e b (upsert_row f c row) ≡ upsert_row f c (upsert_row e b row)
unfolding upsert_row
upsert_row_comm e f b c none h k = ground arith
upsert_row_comm e f b c (some row) h k = ground arith

apply_balance_comm :
    (e f : Uuid) (b c : EventBalance) (rows : Uuid → Option Projection)
    → IsApart b c
    → apply_balance e b (apply_balance f c rows) ≡ apply_balance f c (apply_balance e b rows)
unfolding apply_balance
apply_balance_comm e f b c rows h = fun_ext (λ id. elim (Bool-cases (b.account_id == id)) [
  | inr p ↦ rw p refl
  | inl p ↦ elim (Bool-cases (c.account_id == id)) [
    | inr q ↦ rw (p, q) refl
    | inl q ↦
        rw (p, q)
          (let (other, money) =
              h ((==_iff b.account_id id).0 p ∙ sym ((==_iff c.account_id id).0 q)) in
            upsert_row_comm e f b c (rows id) other money)
  ]
])

apply_balances-past :
    (e f : Uuid) (b : EventBalance) (cs : List EventBalance) (rows : Uuid → Option Projection)
    → All (IsApart b) cs
    → apply_balance e b (apply_balances f cs rows) ≡ apply_balances f cs (apply_balance e b rows)
unfolding apply_balances
apply_balances-past e f b [] rows h = refl
apply_balances-past e f b (c ∷ cs) rows h =
    apply_balances-past e f b cs (apply_balance f c rows) h.1
    ∙ ap (apply_balances f cs) (apply_balance_comm e f b c rows h.0)

apply_balances_comm :
    (e f : Uuid) (bs cs : List EventBalance) (rows : Uuid → Option Projection)
    → AreApart bs cs
    → apply_balances e bs (apply_balances f cs rows)
      ≡ apply_balances f cs (apply_balances e bs rows)
unfolding apply_balances
apply_balances_comm e f [] cs rows h = refl
apply_balances_comm e f (b ∷ bs) cs rows h =
    ap (apply_balances e bs) (apply_balances-past e f b cs rows h.0)
    ∙ apply_balances_comm e f bs cs (apply_balance e b rows) h.1

-- Two different events may be delivered in either order: the projected balances are the same, and
-- each is answered as it would be without the other, where an account that is in both has different
-- versions there, and the same currency.
pub apply_reordered :
    (e f : Envelope) (s : Projections)
    → e.event_id ≢ f.event_id
    → AreApart (payload_balances e.event.payload) (payload_balances f.event.payload)
    → ((apply e (apply f s).1).1.balances ≡ (apply f (apply e s).1).1.balances)
      × ((apply e (apply f s).1).0 ≡ (apply e s).0)
      × ((apply f (apply e s).1).0 ≡ (apply f s).0)
unfolding apply mem_id
apply_reordered e f s h k =
    let bs = payload_balances e.event.payload in
    let cs = payload_balances f.event.payload in
    ground (
      arith,
      apply_balances_comm e.event_id f.event_id bs cs s.balances k,
      ==_iff e.event_id f.event_id,
      ==_iff f.event_id e.event_id,
    )
