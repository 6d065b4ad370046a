-- ===== src/Calls/Audit.antt =====
-- Every call leaves one trace in each part that the dispatcher has, and the trace agrees with the answer.
use mcp_switchboard.Prelude.{
  ◌≡◌, refl, Bool, true, false, not, ◌&&◌, List, [], ◌∷◌, ◌++◌, Option, none, some, Text,
  if◌then◌else◌, if_ind, ap, sym, subst, ◌∙◌, Bool-cases, inl, inr,
}
use mcp_switchboard.Registry.{ServerChannel, Connection, ready}
use mcp_switchboard.Calls.Records.{
  Status, status_ok, status_error, status_denied, CallRecord, Request, Result, Dispatcher, Answer,
  failed, answered, Outside, given, observation, line, finish,
}
use mcp_switchboard.Calls.{
  concluded, call, deny, LocalRequest, Outcome, refused, returned, concluded_local, local,
  finish_with,
}

abbrev pub went_well : Status → Bool
went_well status_ok = true
went_well _ = false

-- The list of a part, with one more entry where there is the part.
abbrev pub OneMore : {A : Type 0} → Option (List A) → A → Option (List A) → Type 0
OneMore none x after = after ≡ none
OneMore (some xs) x after = after ≡ some (xs ++ (x ∷ []))

-- One call's traces: a single record, which each part received once in its own form, the store where it
-- writes at all, and which agrees with the answer on the id, on the error, and on whether all went well.
pub record Traced (o : Outside) (d : Dispatcher) (id : Text) (good : Bool) (d' : Dispatcher)
    (res : Result) : Type 0 where
  pub row : CallRecord
  pub named : row.id ≡ id
  pub returns : res.call_id ≡ id
  pub stored : if o.stores row then OneMore d.store row d'.store else (d'.store ≡ d.store)
  pub measured : OneMore d.metrics (observation row) d'.metrics
  pub exported : OneMore d.loki (line row) d'.loki
  pub announced : OneMore d.bus row.id d'.bus
  pub errors : row.error ≡ res.error
  pub verdict : went_well row.status ≡ good

given_lem : {A : Type 0} (x : A) (part : Option (List A)) → OneMore part x (given x part)
given_lem x none = refl
given_lem x (some xs) = refl

stored_lem :
    (b : Bool) (r : CallRecord) (part : Option (List CallRecord))
    → if b
      then OneMore part r (if b then given r part else part)
      else ((if b then given r part else part) ≡ part)
stored_lem true r part = given_lem r part
stored_lem false r part = refl

finish-Traced :
    (o : Outside) (d : Dispatcher) (r : CallRecord) (good : Bool) (res : Result)
    → res.call_id ≡ r.id
    → r.error ≡ res.error
    → went_well r.status ≡ good
    → Traced o d r.id good (finish o r d) res
unfolding finish
finish-Traced o d r good res n e v = record {
  row = r;
  named = refl;
  returns = n;
  stored = stored_lem (o.stores r) r d.store;
  measured = given_lem (observation r) d.metrics;
  exported = given_lem (line r) d.loki;
  announced = given_lem r.id d.bus;
  errors = e;
  verdict = v;
}

-- A record and a result that tell the same.
abbrev Agrees : Text → CallRecord × Result → Type 0
Agrees id (r, res) =
    (res.call_id ≡ id)
    × ((r.id ≡ id) × ((r.error ≡ res.error) × (went_well r.status ≡ not res.is_error)))

Agrees-concluded :
    (o : Outside) (r : CallRecord) (a : Answer)
    → r.status ≡ status_ok
    → r.error ≡ []
    → Agrees r.id (concluded o r a)
unfolding concluded
Agrees-concluded o r (failed text deadline) h e = (refl, (refl, (refl, refl)))
Agrees-concluded o r (answered res) h e =
    if_ind (Agrees r.id) res.is_error _ _ (refl, (refl, (refl, refl)))
      (refl, (refl, (e, ap went_well h)))

finish_with-Traced :
    (o : Outside) (d : Dispatcher) (id : Text) (p : CallRecord × Result)
    → Agrees id p
    → Traced o d id (not p.1.is_error) (finish_with o p d).0 (finish_with o p d).1
finish_with-Traced o d id (r, res) (a, (b, (c, v))) =
    subst (λ i. Traced o d i (not res.is_error) (finish o r d) res) b
      (finish-Traced o d r (not res.is_error) res (a ∙ sym b) c v)

-- Whatever the server answers, and where there is no session to ask, `Call` leaves exactly one trace in
-- each part that there is, the store where that writes the row, and its status is ok exactly where the
-- channel is ready and the result is no error.
pub call-Traced :
    (o : Outside) (id : Text) (req : Request) (c : Connection) (ch : ServerChannel) (d : Dispatcher)
    → let (d', res) = call o id req c ch d in Traced o d id (ready ch && not res.is_error) d' res
unfolding call
call-Traced o id req c ch d = elim (Bool-cases (ready ch)) [
  | inl e ↦ rw (e) (finish_with-Traced o d id _ (Agrees-concluded o _ _ refl refl))
  | inr e ↦ rw (e) (finish-Traced o d _ false _ refl refl refl)
]

-- A denial leaves exactly one trace in each part that there is, the store where that writes the row, and
-- it is never ok.
pub deny-Traced :
    (o : Outside) (id : Text) (req : Request) (reason : Text) (d : Dispatcher)
    → let (d', res) = deny o id req reason d in Traced o d id false d' res
unfolding deny
deny-Traced o id req reason d = finish-Traced o d _ _ _ refl refl refl

-- A call that the hub answers itself leaves exactly one trace in each part that there is, the store where
-- that writes the row, and it is ok exactly where the result is no error.
pub local-Traced :
    (o : Outside) (id : Text) (req : LocalRequest) (outcome : Outcome) (d : Dispatcher)
    → let (d', res) = local o id req outcome d in Traced o d id (not res.is_error) d' res
unfolding local concluded_local
local-Traced o id req (refused text denied) d =
    finish-Traced o d _ false _ refl refl
      (if_ind (λ s. went_well s ≡ false) denied status_denied status_error refl refl)
local-Traced o id req (returned text) d = finish-Traced o d _ true _ refl refl refl
