-- ===== src/Approval.antt =====
-- The approval gate of a tool call: needsApproval, gate and approvalRuleNote of
-- hub/internal/agents/tools.go, and ApprovalMode of hub/internal/store/entities.go.
pub mod Gate
use mcp_switchboard.Prelude.{
  ◌≡◌, Bool, true, false, not, ◌&&◌, ◌||◌, List, [], ◌∷◌, ◌++◌, Option, none, some, Text, bytes,
  text_eq, if◌then◌else◌,
}
use mcp_switchboard.Registry.{ToolAnnotations, is_empty}

-- The UTF-8 of U+2014.
abbrev em_dash : Text
em_dash = 226 ∷ 128 ∷ 148 ∷ []

abbrev pub approval_never : Text
approval_never = bytes "never"

abbrev pub approval_destructive : Text
approval_destructive = bytes "destructive"

abbrev pub approval_always : Text
approval_always = bytes "always"

-- The preferences of a chat that the gate reads.
pub record Chat : Type 0 where
  pub approval : Text
  pub auto_approve : Bool

-- `ApprovalMode`
unfoldable pub approval_mode : Chat → Text → Text
approval_mode c agent_approval = if is_empty c.approval then agent_approval else c.approval

-- `p != nil && !*p`
abbrev pub denies : Option Bool → Bool
denies none = false
denies (some b) = not b

abbrev pub explicitly_benign : ToolAnnotations → Bool
explicitly_benign a = denies a.destructive && denies a.open_world

abbrev pub is_irreversible : Option ToolAnnotations → Bool
is_irreversible none = false
is_irreversible (some a) = a.irreversible

-- The case of the mode "destructive".
abbrev pub not_harmless : Option ToolAnnotations → Bool
not_harmless none = true
not_harmless (some a) = if a.read_only then false else not (explicitly_benign a)

unfoldable pub needs_approval : Text → Option ToolAnnotations → Bool
needs_approval mode ann =
    if is_irreversible ann
    then true
    else if text_eq mode approval_always
    then true
    else if text_eq mode approval_destructive
    then not_harmless ann
    else false

abbrev pub with_reason : Text → Text → Text
with_reason reason note = if is_empty reason then note else note ++ (bytes ": " ++ reason)

abbrev pub irreversible_note : Text → Text → Text
irreversible_note mode reason = with_reason reason (
    bytes
      "the tool declares this action irreversible (no undo from this machine), which gates it even under approval mode '"
    ++ (mode ++ bytes "'"))

abbrev pub flagged : Text
flagged = bytes "the approval gate flagged this call"

abbrev pub destructive_note : Option ToolAnnotations → Text
destructive_note none =
    bytes
      "approval mode 'destructive' and the tool sent no annotations (absent hints default to destructive)"
destructive_note (some a) =
    if not (denies a.destructive)
    then bytes "approval mode 'destructive' and destructiveHint is true or missing"
    else if not (denies a.open_world)
    then bytes "approval mode 'destructive' and openWorldHint is true or missing"
    else flagged

abbrev pub mode_note : Text → Option ToolAnnotations → Text
mode_note mode ann =
    if text_eq mode approval_always
    then bytes "approval mode 'always' gates every tool call"
    else if text_eq mode approval_destructive
    then destructive_note ann
    else flagged

unfoldable pub approval_rule_note : Text → Option ToolAnnotations → Text
approval_rule_note mode none = mode_note mode none
approval_rule_note mode (some a) =
    if a.irreversible then irreversible_note mode a.reason else mode_note mode (some a)

-- How a call's context ended: the hub's deadline, or a cancellation with the text of its cause, where
-- that is another error than context.Canceled, and the text of the context's own error.
pub data Stop : Type 0 where
  deadline_exceeded : Stop
  cancelled : Option Text → Text → Stop

-- The texts that Go's formatting makes of the two timeouts.
pub record Timeouts : Type 0 where
  pub call_timeout : Text
  pub approval_timeout : Text

unfoldable pub approval_cancel_reason : Text → Stop → Text
approval_cancel_reason call_timeout deadline_exceeded =
    bytes "cancelled while waiting for approval: the hub's per-call deadline (CALL_TIMEOUT, "
    ++ (call_timeout
        ++ (bytes ") elapsed while the approval was still pending "
            ++ (em_dash
                ++ bytes " nobody denied it; this is retryable, calling again starts a new wait")))
approval_cancel_reason call_timeout (cancelled (some cause) err) =
    bytes "cancelled while waiting for approval: "
    ++ (cause
        ++ (bytes " (ctx: "
            ++ (err
                ++ bytes
                    "); the run or its caller was stopped; retryable once a run is active again")))
approval_cancel_reason call_timeout (cancelled none err) =
    bytes "cancelled while waiting for approval: the run or its caller was cancelled ("
    ++ (err ++ bytes "); retryable once a run is active again")

pub record ApprovalDecision : Type 0 where
  pub approved : Bool
  pub reason : Text

-- The three cases of the select that ends the wait.
pub data Ending : Type 0 where
  decided : ApprovalDecision → Ending
  timed_out : Ending
  stopped : Stop → Ending

-- The outcome that is counted, empty where none is.
abbrev pub outcome_of : Ending → Text
outcome_of (decided dec) = if dec.approved then bytes "approved" else bytes "denied"
outcome_of timed_out = bytes "timeout"
outcome_of (stopped _) = []

abbrev pub timeout_reason : Text → Text
timeout_reason t =
    bytes "approval timed out after "
    ++ (t
        ++ (bytes ": the call was auto-denied; this is retryable "
            ++ (em_dash ++ bytes " calling again will ask again")))

abbrev pub decision_of : Timeouts → Ending → ApprovalDecision
decision_of t (decided dec) = dec
decision_of t timed_out = record { approved = false; reason = timeout_reason t.approval_timeout }
decision_of t (stopped s) = record {
  approved = false;
  reason = approval_cancel_reason t.call_timeout s;
}

-- The reason that the model is given, before the note.
abbrev pub refusal : Text → ApprovalDecision → Text
refusal outcome dec =
    if text_eq outcome (bytes "denied")
    then with_reason dec.reason (bytes "denied by the approver")
      ++ bytes "; calling again will ask the approver afresh"
    else dec.reason

abbrev pub pending_note : Text → Text → Text → Text
pending_note reason tool note =
    reason ++ (bytes " (pending call: " ++ (tool ++ (bytes "; gate rule: " ++ (note ++ bytes ")"))))

abbrev pub no_run_note : Text → Text → Text
no_run_note tool note =
    bytes "approval is required for this call ("
    ++ (tool
        ++ (bytes ") but /mcp/agent has no run to pause; use the console (gate rule: "
            ++ (note ++ bytes ")")))

-- What follows the wait.
abbrev pub settled : Timeouts → Text → Text → Option ToolAnnotations → Ending → Bool × Text
settled t mode tool ann e = if (decision_of t e).approved then (true, []) else (
  false,
  pending_note (refusal (outcome_of e) (decision_of t e)) tool (approval_rule_note mode ann),
)

abbrev pub gate_mode : Option Chat → Text → Text
gate_mode none agent_approval = agent_approval
gate_mode (some c) agent_approval = approval_mode c agent_approval

abbrev pub auto_approved : Option Chat → Bool
auto_approved none = false
auto_approved (some c) = c.auto_approve

-- `gate`: whether the call may proceed, and if not the reason. The chat is the run's, where it has one;
-- the ending is that of the wait, if there is a wait.
unfoldable pub gate :
    Timeouts → Text → Option Chat → Bool → Text → Option ToolAnnotations → Ending → Bool × Text
unfolding approval_mode needs_approval approval_rule_note approval_cancel_reason
gate t agent_approval chat has_run tool ann e =
    let mode = gate_mode chat agent_approval in
    if auto_approved chat
    then (true, [])
    else if not (needs_approval mode ann)
    then (true, [])
    else if not has_run
    then (false, no_run_note tool (approval_rule_note mode ann))
    else settled t mode tool ann e
