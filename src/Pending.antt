-- ===== src/Pending.antt =====
-- What waits for a person: the table of approvals and questions, Approve of hub/internal/agents/tools.go
-- and Answer, toolAsk and parseQuestions of questions.go beside it. Each critical section, and each
-- operation on a channel, is a function.
pub mod Answers
pub mod First
pub mod Parsing
use mcp_switchboard.Prelude.{
  ℕ, zero, suc, ◌≡◌, Bool, true, false, not, ◌&&◌, ◌||◌, List, [], ◌∷◌, ◌++◌, map, Option, none,
  some, Text, Map, get, set, delete, length, get_elem?, modify, any, keep, ltb, ◌==◌, if◌then◌else◌,
}
use mcp_switchboard.Registry.{is_empty}

pub record Question : Type 0 where
  pub question : Text
  pub header : Text
  pub options : List (Text × Text)
  pub multi_select : Bool

-- An answer is its words.
abbrev pub Answer : Type 0
Answer = List Text

-- `approvalDecision`; no answers is the nil slice.
pub record Decision : Type 0 where
  pub approved : Bool
  pub reason : Text
  pub answers : List Answer

-- `pendingApproval`, with its channel by number; `none` is that it asks no questions.
pub record PendingApproval : Type 0 where
  pub tool : Text
  pub reason : Text
  pub questions : Option (List Question)
  pub ch : ℕ

-- The approvals of the runs that there are, and the channels made so far, each with what is in its buffer
-- of one.
pub record Desk : Type 0 where
  pub runs : Map (Map PendingApproval)
  pub channels : List (Option Decision)

pub data Sent : Type 0 where
  accepted not_pending invalid : Sent

abbrev in_run : Text → Option (Map PendingApproval) → Option PendingApproval
in_run call none = none
in_run call (some found) = get call found

unfoldable pub pending : Desk → Text → Text → Option PendingApproval
unfolding get
pending desk run call = in_run call (get run desk.runs)

abbrev pub is_free : Option (Option Decision) → Bool
is_free (some none) = true
is_free _ = false

-- The select that sends, or does not.
unfoldable pub send : ℕ → Decision → Desk → Desk × Sent
send ch d desk =
    if is_free (get_elem? desk.channels ch)
    then (record desk { channels = modify ch (λ _. some d) desk.channels }, accepted)
    else (desk, not_pending)

abbrev pub decision : Bool → Text → Decision
decision approved reason = record { approved = approved; reason = reason; answers = [] }

-- `Approve`
abbrev pub send_to : Option PendingApproval → Decision → Desk → Desk × Sent
send_to none d desk = (desk, not_pending)
send_to (some pa) d desk = send pa.ch d desk

unfoldable pub approve : Text → Text → Bool → Text → Desk → Desk × Sent
unfolding pending send
approve run call approved reason desk =
    send_to (pending desk run call) (decision approved reason) desk

-- The loop of `Answer`; the first argument is strings.TrimSpace.
abbrev pub kept : (Text → Text) → Answer → Answer
kept trim a = keep (λ s. not (is_empty s)) (map trim a)

abbrev pub no_words : Answer → Bool
no_words [] = true
no_words (_ ∷ _) = false

abbrev pub replied : List Answer → Decision
replied answers = record { approved = true; reason = []; answers = answers }

abbrev pub answer_questions :
    (Text → Text) → ℕ → Option (List Question) → List Answer → Desk → Desk × Sent
answer_questions trim ch none answers desk = (desk, not_pending)
answer_questions trim ch (some qs) answers desk =
    if not (length answers == length qs)
    then (desk, invalid)
    else if any no_words (map (kept trim) answers)
    then (desk, invalid)
    else send ch (replied (map (kept trim) answers)) desk

abbrev pub answer_to : (Text → Text) → Option PendingApproval → List Answer → Desk → Desk × Sent
answer_to trim none answers desk = (desk, not_pending)
answer_to trim (some pa) answers desk = answer_questions trim pa.ch pa.questions answers desk

unfoldable pub answer : (Text → Text) → Text → Text → List Answer → Desk → Desk × Sent
unfolding pending send
answer trim run call answers desk = answer_to trim (pending desk run call) answers desk

-- What a waiting call does first: a channel of its own, and its place in the table. A run that is no longer
-- in the map is one that nobody finds.
abbrev with_pending :
    Text
    → Text
    → PendingApproval
    → Option (Map PendingApproval)
    → Map (Map PendingApproval)
    → Map (Map PendingApproval)
with_pending run call pa none runs = runs
with_pending run call pa (some found) runs = set run (set call pa found) runs

abbrev pub pending_at : Text → Text → Option (List Question) → ℕ → PendingApproval
pending_at tool reason questions ch = record {
  tool = tool;
  reason = reason;
  questions = questions;
  ch = ch;
}

unfoldable pub ask : Text → Text → Text → Text → Option (List Question) → Desk → Desk
unfolding get set
ask run call tool reason questions desk = record {
  runs =
      with_pending run call (pending_at tool reason questions (length desk.channels))
        (get run desk.runs) desk.runs;
  channels = desk.channels ++ (none ∷ []);
}

-- Receiving from the call's channel, which blocks while there is nothing in it.
abbrev pub content : Option (Option Decision) → Option Decision
content none = none
content (some c) = c

unfoldable pub receive : ℕ → Desk → Option Decision × Desk
receive ch desk = (
  content (get_elem? desk.channels ch),
  record desk { channels = modify ch (λ _. none) desk.channels },
)

-- What a call does when its wait is over, however that ends.
abbrev without_pending :
    Text
    → Text
    → Option (Map PendingApproval)
    → Map (Map PendingApproval)
    → Map (Map PendingApproval)
without_pending run call none runs = runs
without_pending run call (some found) runs = set run (delete call found) runs

unfoldable pub forget : Text → Text → Desk → Desk
unfolding get set delete
forget run call desk = record desk { runs = without_pending run call (get run desk.runs) desk.runs }

-- What `toolAsk` makes of a decision. An index out of range is a panic.
pub data Reply : Type 0 where
  answered : List (Text × Answer) → Reply
  declined panicked : Reply

abbrev and_reply : Question → Answer → Reply → Reply
and_reply q a (answered qas) = answered ((q.question, a) ∷ qas)
and_reply q a declined = declined
and_reply q a panicked = panicked

-- The loop over the questions, with the answers from the question's index on.
unfoldable pub reply_answers : List Question → List Answer → Reply
reply_answers [] answers = answered []
reply_answers (q ∷ qs) [] = panicked
reply_answers (q ∷ qs) (a ∷ answers) = and_reply q a (reply_answers qs answers)

unfoldable pub reply : List Question → Decision → Reply
unfolding reply_answers
reply qs dec = if not dec.approved then declined else reply_answers qs dec.answers
