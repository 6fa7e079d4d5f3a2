-- ===== src/Audit/Safety.antt =====
-- `audit_call` against an independent description of the tool calls that an import must refuse.
use permeant_os.Prelude.{
  String, ◌≡◌, ◌≢◌, ◌⊎◌, inl, inr, refl, true, false, ◌&&◌, arith, eq_iff, contains, ◌↔◌,
  contains-disjoint, Bool-cases, ◌<>◌, differ, All-contains,
}
use permeant_os.Py.Value.{str}
use permeant_os.Py.Result.{Exc, Result-cases, raise, ok}
use permeant_os.Py.Dict.{in_set}
use permeant_os.Constants.{pending_tool_statuses, manual_resume_policies}
use permeant_os.Audit.{
  Verdict, audit_call, terminal_statuses, mutating_effects, reading_effects, refused_approvals,
}

-- The calls that must not be imported.
pub data IsUnsafe (side_effect status policy approval : String) : Type 0 where
  -- its effect is done, and it asks to be retried
  replays_done :
      contains terminal_statuses status ≡ true
      → contains mutating_effects side_effect ≡ true
      → policy ≡ "retry_safe"
      → IsUnsafe side_effect status policy approval
  -- its effect may be repeated with nobody asked
  unattended :
      contains terminal_statuses status ≡ false
      → contains mutating_effects side_effect ≡ true
      → contains manual_resume_policies policy ≡ false
      → IsUnsafe side_effect status policy approval
  -- it waits for an approval that was refused
  refused :
      contains pending_tool_statuses status ≡ true
      → contains refused_approvals approval ≡ true
      → IsUnsafe side_effect status policy approval

module _ (e s p a : String) where
  reading_not_mutating : contains reading_effects e ≡ true → contains mutating_effects e ≡ false
  unfolding contains
  reading_not_mutating = contains-disjoint reading_effects mutating_effects e refl

  pending_not_terminal :
      contains pending_tool_statuses s ≡ true → contains terminal_statuses s ≡ false
  unfolding contains
  pending_not_terminal = contains-disjoint pending_tool_statuses terminal_statuses s refl

  retry_not_manual : p ≡ "retry_safe" → contains manual_resume_policies p ≡ false
  unfolding contains
  retry_not_manual h = rw h

  raises_nothing : (x : Exc) → audit_call (str e) (str s) (str p) (str a) ≢ raise x
  unfolding audit_call in_set
  raises_nothing x h = ground arith

  sound :
      (v : Verdict)
      → audit_call (str e) (str s) (str p) (str a) ≡ ok v
      → IsUnsafe e s p a
      → v.safe_to_import ≡ false
  unfolding audit_call in_set
  sound v h (replays_done t m r) = ground (arith, eq_iff p "retry_safe")
  sound v h (unattended t m n) = ground (arith, reading_not_mutating)
  sound v h (refused q r) = ground (arith)

  complete :
      (v : Verdict)
      → audit_call (str e) (str s) (str p) (str a) ≡ ok v
      → v.safe_to_import ≡ false
      → IsUnsafe e s p a
  unfolding audit_call in_set
  complete v h u =
      elim (Bool-cases (contains pending_tool_statuses s && contains refused_approvals a)) [
        | inl both ↦ refused (ground arith) (ground arith)
        | inr open_call ↦ elim (Bool-cases (contains terminal_statuses s)) [
          | inl done ↦ replays_done done (ground arith) (ground (arith, eq_iff p "retry_safe"))
          | inr live ↦ unattended live (ground arith) (ground arith)
        ]
      ]

  -- For every side effect, status, resume policy and approval state, the audit of a call returns a
  -- verdict, and the verdict says that the import is not safe exactly for the unsafe calls.
  pub audit_call_decides :
      (v : Verdict) × (audit_call (str e) (str s) (str p) (str a) ≡ ok v)
      × ((v.safe_to_import ≡ false) ↔ IsUnsafe e s p a)
  audit_call_decides = elim (Result-cases (audit_call (str e) (str s) (str p) (str a))) [
    | inl (v, h) ↦ (v, h, (complete v h, sound v h))
    | inr (x, h) ↦ absurd (raises_nothing x h)
  ]

  manual_action : contains manual_resume_policies p ≡ true → p <> "_required" ≡ "retry_allowed" → ⊥
  unfolding contains ◌<>◌
  manual_action h =
      All-contains (λ t. t <> "_required" ≢ "retry_allowed") manual_resume_policies p
        (differ _ _ refl, (differ _ _ refl, (differ _ _ refl, tt))) h

  -- A verdict that lets the call run again is given only to a call that is not over, has no effect
  -- but reading, asks for the retry, and does not wait for an approval that was refused.
  pub retry_allowed_only :
      (v : Verdict)
      → audit_call (str e) (str s) (str p) (str a) ≡ ok v
      → v.action ≡ "retry_allowed"
      → (contains terminal_statuses s ≡ false)
        × (contains reading_effects e ≡ true)
        × (p ≡ "retry_safe")
        × (contains pending_tool_statuses s && contains refused_approvals a ≡ false)
  unfolding audit_call in_set
  retry_allowed_only v h r = ground (
    arith,
    eq_iff p "retry_safe",
    manual_action,
    eq_iff "no_replay" "retry_allowed",
    eq_iff "reject" "retry_allowed",
    eq_iff "requires_user" "retry_allowed",
    eq_iff "manual_review" "retry_allowed",
  )

  -- A call that is over is never run again: its verdict is `no_replay`, or it is refused.
  pub terminal_never_runs :
      (v : Verdict)
      → contains terminal_statuses s ≡ true
      → audit_call (str e) (str s) (str p) (str a) ≡ ok v
      → (v.action ≡ "no_replay") ⊎ ((v.action ≡ "reject") × (v.safe_to_import ≡ false))
  unfolding audit_call in_set
  terminal_never_runs v t h = ground (arith, pending_not_terminal)
