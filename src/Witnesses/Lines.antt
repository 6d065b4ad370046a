-- ===== src/Witnesses/Lines.antt =====
-- Three runs on one chat: the second is cancelled while it waits, and the first finishes.
use mcp_switchboard.Prelude.{
  ◌≡◌, refl, true, List, [], ◌∷◌, some, bytes, Text, get, set, text_eq, delete,
}
use mcp_switchboard.Chats.{Run, Op, submits, cancels, forgets, promotes, step, steps, new}
use mcp_switchboard.Chats.Turns.{line, line_step, line-step, is_served, is_served-line}

abbrev chat : Text
chat = bytes "chat"

abbrev first : Run
first = record { id = 1; agent = bytes "a"; chat = chat }

abbrev second : Run
second = record { id = 2; agent = bytes "a"; chat = chat }

abbrev third : Run
third = record { id = 3; agent = bytes "a"; chat = chat }

abbrev history : List Op
history =
    submits first
    ∷ submits second
    ∷ submits third
    ∷ cancels second
    ∷ forgets second
    ∷ forgets first
    ∷ promotes chat
    ∷ []

third_is_next : line chat (steps history new) ≡ record { active = some 3; behind = [] }
unfolding steps new get set delete text_eq
third_is_next = refl

line-step_example :
    line chat (step (cancels second) (steps (submits first ∷ submits second ∷ []) new))
    ≡ line_step chat (cancels second) (line chat (steps (submits first ∷ submits second ∷ []) new))
line-step_example =
    line-step chat (cancels second) (steps (submits first ∷ submits second ∷ []) new)

is_served-line_example : is_served (line chat (steps history new)) ≡ true
is_served-line_example = is_served-line chat history
