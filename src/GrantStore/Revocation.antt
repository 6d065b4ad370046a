-- ===== src/GrantStore/Revocation.antt =====
-- What a deny or a deleted grant takes from an agent's descendants.
use mcp_switchboard.Prelude.{
  ◌≡◌, ◌⊎◌, refl, ap, sym, ◌∙◌, inl, inr, Bool, true, false, not, ◌&&◌, ◌||◌, List, [], ◌∷◌, map,
  Text, text_eq, text_eq_iff, any, keep, In, if_cases, if_ind, subst, Bool-cases, arith,
}
use mcp_switchboard.Ref.{ServerRef}
use mcp_switchboard.Grants.{Grant, Rule, rule_of, inherited, pat_of, covers, field_covers, resolve}
use mcp_switchboard.Grants.Resolution.{permits, resolve-permits, allows, denies}
use mcp_switchboard.GrantStore.{
  Agents, member, below, Row, is_key, upsert_grant, revoked_row, revoke_below, set_grant,
  delete_grant, list_grants, with_source,
}
use mcp_switchboard.GrantStore.Tree.{Below, in_order, Below-member}

In-keep : (p : Row → Bool) (r : Row) (rows : List Row) → In r (keep p rows) → p r ≡ true
In-keep p r [] i = absurd i
In-keep p r (x ∷ rows) i =
    if_cases (λ l. In r l → p r ≡ true) (p x) _ _
      (λ e j. elim j [ inl q ↦ ap p q ∙ e | inr k ↦ In-keep p r rows k ])
      (λ e j. In-keep p r rows j) i

revoked_row-covers :
    (ids : List Text) (p : ServerRef) (r : Row)
    → member r.agent_id ids ≡ true
    → r.grant.source ≡ inherited
    → r.grant.allowed ≡ true
    → covers p (pat_of r.grant) ≡ true
    → revoked_row ids p r ≡ true
unfolding covers field_covers
revoked_row-covers ids p r m s a c = ground (
  arith,
  text_eq_iff r.grant.source inherited,
  text_eq_iff p.label r.grant.label,
  text_eq_iff r.grant.label p.label,
  text_eq_iff p.project r.grant.project,
  text_eq_iff r.grant.project p.project,
  text_eq_iff p.server r.grant.server,
  text_eq_iff r.grant.server p.server,
)

-- A row that an agent's deny has to take from one below it.
record IsCovered (agents : Agents) (a : Text) (p : ServerRef) (r : Row) : Type 0 where
  descendant : Below agents a r.agent_id
  handed_down : r.grant.source ≡ inherited
  allows : r.grant.allowed ≡ true
  covered : covers p (pat_of r.grant) ≡ true

revoke_below_complete :
    (agents : Agents) (a : Text) (p : ServerRef) (rows : List Row) (r : Row)
    → in_order agents ≡ true
    → IsCovered agents a p r
    → In r (revoke_below agents a p rows).1
    → ⊥
unfolding revoke_below
revoke_below_complete agents a p rows r o c i =
    let ids = below (a ∷ []) agents in
    let kept = In-keep (λ r. not (revoked_row ids p r)) r rows i in
    let gone =
      revoked_row-covers ids p r (Below-member agents a r.agent_id o c.descendant) c.handed_down
        c.allows c.covered in
    absurd (ground arith)

set_grant-deny :
    (agents : Agents) (a : Text) (g : Grant) (rows : List Row)
    → g.allowed ≡ false
    → set_grant agents a g rows ≡ revoke_below agents a (pat_of g) (upsert_grant a g rows)
unfolding set_grant
set_grant-deny agents a g rows n =
    if_cases
      (λ (x : List Row × List Row). x ≡ revoke_below agents a (pat_of g) (upsert_grant a g rows))
      g.allowed _ _ (λ e. absurd (ground arith)) (λ e. refl)

-- Once a grant of an agent is set to deny, or deleted, no agent below it, however deep, has a grant that it
-- inherited, that allows, and that the pattern covers, where agents are listed in the order of their
-- creation.
pub revocation_complete :
    (agents : Agents) (a : Text) (g : Grant) (rows : List Row) (r : Row)
    → in_order agents ≡ true
    → g.allowed ≡ false
    → Below agents a r.agent_id
    → r.grant.source ≡ inherited
    → r.grant.allowed ≡ true
    → In r (set_grant agents a g rows).1 ⊎ In r (delete_grant agents a (pat_of g) rows).1
    → covers (pat_of g) (pat_of r.grant) ≡ false
unfolding delete_grant
revocation_complete agents a g rows r o n b s w i =
    elim (Bool-cases (covers (pat_of g) (pat_of r.grant))) [
      | inr c ↦ c
      | inl c ↦
          let covered : IsCovered agents a (pat_of g) r = record {
            descendant = b;
            handed_down = s;
            allows = w;
            covered = c;
          } in
          absurd (elim i [
            | inl j ↦
                revoke_below_complete agents a (pat_of g) (upsert_grant a g rows) r o covered (
                  subst (λ (x : List Row × List Row). In r x.1) (set_grant-deny agents a g rows n)
                    j)
            | inr j ↦
                revoke_below_complete agents a (pat_of g)
                  (keep (λ r. not (is_key a (pat_of g) r)) rows) r o covered j
          ])
    ]

-- Rows of an agent as rules, and what `keep` leaves of them.
abbrev pub rules : Text → List Row → List Rule
rules id rows = map rule_of (list_grants id rows)

any-rules :
    (f : Rule → Bool) (id : Text) (r : Row) (rows : List Row)
    → any f (rules id (r ∷ rows))
      ≡ ((text_eq r.agent_id id && f (rule_of r.grant)) || any f (rules id rows))
any-rules f id r rows =
    if_cases
      (λ l.
        any f (map rule_of (map (λ r. r.grant) l))
        ≡ ((text_eq r.agent_id id && f (rule_of r.grant)) || any f (rules id rows)))
      (text_eq r.agent_id id) _ _ (λ e. ground arith) (λ e. ground arith)

-- Deleting rows makes no rule, and where none that passes a test is deleted, none of those is lost.
any-keep :
    (keeps : Row → Bool) (f : Rule → Bool) (id : Text) (rows : List Row)
    → any f (rules id (keep keeps rows)) ≡ true
    → any f (rules id rows) ≡ true
any-keep keeps f id [] h = h
any-keep keeps f id (r ∷ rows) h =
    if_cases (λ l. any f (rules id l) ≡ true → any f (rules id (r ∷ rows)) ≡ true) (keeps r) _ _
      (λ e j. ground (
        arith,
        any-rules f id r rows,
        any-rules f id r (keep keeps rows),
        any-keep keeps f id rows,
      ))
      (λ e j. ground (arith, any-rules f id r rows, any-keep keeps f id rows)) h

any-keep-all :
    (keeps : Row → Bool) (f : Rule → Bool) (id : Text) (rows : List Row)
    → ((r : Row) → text_eq r.agent_id id ≡ true → f (rule_of r.grant) ≡ true → keeps r ≡ true)
    → any f (rules id rows) ≡ true
    → any f (rules id (keep keeps rows)) ≡ true
any-keep-all keeps f id [] k h = h
any-keep-all keeps f id (r ∷ rows) k h =
    if_cases (λ l. any f (rules id l) ≡ true) (keeps r) _ _
      (λ e. ground (
        arith,
        any-rules f id r rows,
        any-rules f id r (keep keeps rows),
        any-keep-all keeps f id rows k,
      ))
      (λ e. ground (arith, any-rules f id r rows, k r, any-keep-all keeps f id rows k))

-- A table of which rows have been deleted, but for no deny of an agent, permits the agent no more.
permits-keep :
    (keeps : Row → Bool) (id : Text) (ref : ServerRef) (rows : List Row)
    → ((r : Row)
        → text_eq r.agent_id id ≡ true
        → denies ref (rule_of r.grant) ≡ true
        → keeps r ≡ true)
    → permits (rules id (keep keeps rows)) ref ≡ true
    → permits (rules id rows) ref ≡ true
permits-keep keeps id ref rows k h =
    ground (arith, any-keep keeps (allows ref) id rows, any-keep-all keeps (denies ref) id rows k)

-- A row of an agent changes nothing for the others.
any-upsert_grant :
    (f : Rule → Bool) (id a : Text) (g : Grant) (rows : List Row)
    → text_eq a id ≡ false
    → any f (rules id (upsert_grant a g rows)) ≡ any f (rules id rows)
unfolding upsert_grant
any-upsert_grant f id a g [] n =
    ground (arith, any-rules f id (record { agent_id = a; grant = with_source g }) [])
any-upsert_grant f id a g (r ∷ rows) n =
    if_cases (λ l. any f (rules id l) ≡ any f (rules id (r ∷ rows))) (is_key a (pat_of g) r) _ _
      (λ e. ground (
        arith,
        any-rules f id
            (record r {
              grant = record r.grant { allowed = g.allowed; source = (with_source g).source };
            })
            rows,
        any-rules f id r rows,
        text_eq_iff r.agent_id a,
        text_eq_iff r.agent_id id,
        text_eq_iff a id,
      ))
      (λ e. ground (
        arith,
        any-rules f id r rows,
        any-rules f id r (upsert_grant a g rows),
        any-upsert_grant f id a g rows n,
      ))

permits-revoke_below :
    (agents : Agents) (id a : Text) (p : ServerRef) (ref : ServerRef) (rows : List Row)
    → permits (rules id (revoke_below agents a p rows).1) ref ≡ true
    → permits (rules id rows) ref ≡ true
unfolding revoke_below
permits-revoke_below agents id a p ref rows h =
    permits-keep (λ r. not (revoked_row (below (a ∷ []) agents) p r)) id ref rows
      (λ r e d. ground arith) h

permits-upsert_grant :
    (id a : Text) (g : Grant) (ref : ServerRef) (rows : List Row)
    → text_eq a id ≡ false
    → permits (rules id (upsert_grant a g rows)) ref ≡ permits (rules id rows) ref
permits-upsert_grant id a g ref rows n = ground (
  arith,
  any-upsert_grant (allows ref) id a g rows n,
  any-upsert_grant (denies ref) id a g rows n,
)

-- `Resolve` over the rows of an agent.
abbrev pub may_reach : Text → ServerRef → List Row → Bool
may_reach id ref rows = (resolve (rules id rows) ref).0

-- Setting a grant of an agent, to allow or to deny, and deleting one give no other agent a server that it
-- did not have.
pub may_reach-others :
    (agents : Agents) (id a : Text) (g : Grant) (ref : ServerRef) (rows : List Row)
    → text_eq a id ≡ false
    → may_reach id ref (set_grant agents a g rows).1 ≡ true
      ⊎ may_reach id ref (delete_grant agents a (pat_of g) rows).1 ≡ true
    → may_reach id ref rows ≡ true
unfolding set_grant delete_grant
may_reach-others agents id a g ref rows n (inl h) =
    resolve-permits (rules id rows) ref
    ∙ if_ind
        (λ (x : List Row × List Row).
          may_reach id ref x.1 ≡ true → permits (rules id rows) ref ≡ true)
        g.allowed _ _
        (λ k. ground (
          arith,
          permits-upsert_grant id a g ref rows n,
          resolve-permits (rules id (upsert_grant a g rows)) ref,
        ))
        (λ k. ground (
          arith,
          permits-upsert_grant id a g ref rows n,
          permits-revoke_below agents id a (pat_of g) ref (upsert_grant a g rows),
          resolve-permits (rules id (revoke_below agents a (pat_of g) (upsert_grant a g rows)).1)
              ref,
        ))
        h
may_reach-others agents id a g ref rows n (inr h) =
    let others = keep (λ r. not (is_key a (pat_of g) r)) rows in
    resolve-permits (rules id rows) ref
    ∙ permits-keep (λ r. not (is_key a (pat_of g) r)) id ref rows
        (λ r e d.
          ground (arith, text_eq_iff r.agent_id a, text_eq_iff r.agent_id id, text_eq_iff a id))
        (permits-revoke_below agents id a (pat_of g) ref others
          (sym (resolve-permits (rules id (revoke_below agents a (pat_of g) others).1) ref) ∙ h))
