-- ===== src/Spool/Lifecycle.antt =====
-- The life of one target, with all but its state left out.
pub mod Effects
pub mod Bulk
pub mod Runs
pub mod Restart
pub mod Reach
use notification_manager.Base.{◌≡◌, ◌⊎◌, Bool, true, Option, none, some}
use notification_manager.Spool.Types.{
  State, pending, sending, delivered, unknown, dead_letter, Target,
}
use notification_manager.Spool.Claim.{is_claimable}
use notification_manager.Spool.Finish.{is_completion, is_reconcilable, is_resolution}

pub data Phase : Type 0 where
  absent : Phase
  held : State → Phase

abbrev pub phase : Option Target → Phase
phase none = absent
phase (some t) = held t.state

-- The state diagram.
pub data Edge (p q : Phase) : Type 0 where
  keep : q ≡ p → Edge p q
  accepted : p ≡ absent → q ≡ held pending → Edge p q
  taken : (s : State) → p ≡ held s → is_claimable s ≡ true → q ≡ held sending → Edge p q
  completed : (s : State) → p ≡ held sending → is_completion s ≡ true → q ≡ held s → Edge p q
  reconciled :
      (s s' : State)
      → p ≡ held s
      → is_reconcilable s ≡ true
      → is_resolution s' ≡ true
      → q ≡ held s'
      → Edge p q
  removed : (p ≡ held delivered) ⊎ (p ≡ held dead_letter) → q ≡ absent → Edge p q
