-- ===== src/Approval/Gate.antt =====
-- When a call passes the gate, and which calls it asks about.
use mcp_switchboard.Prelude.{
  ◌≡◌, refl, ◌⊎◌, Bool, false, not, ◌&&◌, ◌||◌, Option, none, some, Text, arith, if_cases,
}
use mcp_switchboard.Registry.{ToolAnnotations}
use mcp_switchboard.Approval.{
  Chat, Timeouts, Ending, decided, timed_out, stopped, needs_approval, gate_mode, auto_approved,
  gate, settled,
}

-- The approver said yes.
abbrev pub says_yes : Ending → Bool
says_yes (decided dec) = dec.approved
says_yes _ = false

abbrev pub passes : Option Chat → Text → Bool → Option ToolAnnotations → Ending → Bool
passes chat agent_approval has_run ann e =
    auto_approved chat
    || not (needs_approval (gate_mode chat agent_approval) ann)
    || (has_run && says_yes e)

settled_lem :
    (t : Timeouts) (mode tool : Text) (ann : Option ToolAnnotations) (e : Ending)
    → (settled t mode tool ann e).0 ≡ says_yes e
settled_lem t mode tool ann (decided dec) =
    if_cases (λ (p : Bool × Text). p.0 ≡ dec.approved) dec.approved _ _ (λ h. ground arith)
      (λ h. ground arith)
settled_lem t mode tool ann timed_out = refl
settled_lem t mode tool ann (stopped s) = refl

pub gate_lem :
    (t : Timeouts) (agent_approval : Text) (chat : Option Chat) (has_run : Bool) (tool : Text)
    (ann : Option ToolAnnotations) (e : Ending)
    → (gate t agent_approval chat has_run tool ann e).0 ≡ passes chat agent_approval has_run ann e
unfolding gate
gate_lem t agent_approval chat has_run tool ann e =
    let mode = gate_mode chat agent_approval in
    if_cases (λ (p : Bool × Text). p.0 ≡ passes chat agent_approval has_run ann e)
      (auto_approved chat) _ _ (λ a. ground arith)
      (λ a.
        if_cases (λ (p : Bool × Text). p.0 ≡ passes chat agent_approval has_run ann e)
          (not (needs_approval mode ann)) _ _ (λ n. ground arith)
          (λ n.
            if_cases (λ (p : Bool × Text). p.0 ≡ passes chat agent_approval has_run ann e)
              (not has_run) _ _ (λ r. ground arith)
              (λ r. ground (arith, settled_lem t mode tool ann e))))

-- A missing hint gates at least what the hint would: where a call is let through without the hint on
-- destructiveness, without the one on the open world or without any annotation, it is let through with
-- them, unless they declare it irreversible.
pub needs_approval_unset :
    (mode : Text) (a : ToolAnnotations)
    → needs_approval mode (some (record a { destructive = none })) ≡ false
      ⊎ needs_approval mode (some (record a { open_world = none })) ≡ false
      ⊎ (needs_approval mode none ≡ false) × (a.irreversible ≡ false)
    → needs_approval mode (some a) ≡ false
unfolding needs_approval
needs_approval_unset mode a h = ground arith
