-- ===== src/Stream/Ring/Bounds.antt =====
-- What holds of a run's buffer after every frame.
use mcp_switchboard.Prelude.{
  ℕ, suc, ◌+◌, ◌-◌, ◌≤◌, ◌<◌, ◌≡◌, refl, subst, ◌⊎◌, inl, inr, false, List, [], ◌∷◌, ◌++◌, arith,
  length, length-append, ltb, keep, Bool-cases,
}
use mcp_switchboard.Stream.Frame.{Options, Frame, size}
use mcp_switchboard.Stream.Ring.{RunState, new_run, over, evict, retain}

-- The frames are numbered one after another, from the first number up to the last.
abbrev pub Consecutive : ℕ → List Frame → ℕ → Type 0
Consecutive first [] next = first ≡ next
Consecutive first (f ∷ fs) next = (f.seq ≡ first) × Consecutive (suc first) fs next

abbrev pub total : List Frame → ℕ
total [] = 0
total (f ∷ fs) = size f + total fs

-- Within both limits, or down to the one frame that is never evicted.
abbrev Fits : Options → List Frame → Type 0
Fits o ring = ((length ring ≤ o.ring_frames) × (total ring ≤ o.ring_bytes)) ⊎ (length ring ≤ 1)

pub record RingOk (o : Options) (r : RunState) : Type 0 where
  pub first : ℕ
  pub positive : 1 ≤ first
  pub numbered : Consecutive first r.ring r.next_seq
  pub counted : r.bytes ≡ total r.ring
  pub bounded : Fits o r.ring
  pub held : 1 < r.next_seq → 1 ≤ length r.ring

pub new_run-RingOk : (o : Options) → RingOk o new_run
new_run-RingOk o = record {
  first = 1;
  positive = omega arith;
  numbered = refl;
  counted = refl;
  bounded = inr (omega arith);
  held = λ h. absurd (omega arith);
}

Consecutive-append :
    (first next : ℕ) (ring : List Frame) (f : Frame)
    → Consecutive first ring next
    → f.seq ≡ next
    → Consecutive first (ring ++ (f ∷ [])) (suc next)
Consecutive-append first next [] f c e = (omega arith, omega arith)
Consecutive-append first next (g ∷ ring) f c e =
    (c.0, Consecutive-append (suc first) next ring f c.1 e)

total-append : (xs ys : List Frame) → total (xs ++ ys) ≡ total xs + total ys
total-append [] ys = omega arith
total-append (x ∷ xs) ys = omega (arith, total-append xs ys)

-- What eviction leaves, from a buffer whose count of bytes is right.
pub record Evicted (o : Options) (next : ℕ) (ring : List Frame) (bytes : ℕ) : Type 0 where
  pub first : ℕ
  pub positive : 1 ≤ first
  pub numbered : Consecutive first ring next
  pub counted : bytes ≡ total ring
  pub bounded : Fits o ring

Fits-over-false :
    (o : Options) (ring : List Frame) (bytes : ℕ)
    → bytes ≡ total ring
    → over o ring bytes ≡ false
    → Fits o ring
Fits-over-false o ring bytes e h = ground arith

evict-Evicted :
    (o : Options) (first next : ℕ) (ring : List Frame) (bytes : ℕ)
    → 1 ≤ first
    → Consecutive first ring next
    → bytes ≡ total ring
    → Evicted o next (evict o ring bytes).0 (evict o ring bytes).1
unfolding evict
evict-Evicted o first next [] bytes p c e = record {
  first = first;
  positive = p;
  numbered = c;
  counted = e;
  bounded = inr (omega arith);
}
evict-Evicted o first next (f ∷ ring) bytes p c e = elim (Bool-cases (over o (f ∷ ring) bytes)) [
  | inl more ↦
      rw more
        (evict-Evicted o (suc first) next ring (bytes - size f) (omega arith) c.1 (omega arith))
  | inr fits ↦ rw fits (record {
    first = first;
    positive = p;
    numbered = c;
    counted = e;
    bounded = Fits-over-false o (f ∷ ring) bytes e fits;
  })
]

-- Eviction leaves a frame.
evict_held :
    (o : Options) (ring : List Frame) (bytes : ℕ)
    → 1 ≤ length ring
    → 1 ≤ length (evict o ring bytes).0
unfolding evict
evict_held o [] bytes h = h
evict_held o (f ∷ ring) bytes h = ground (arith, evict_held o ring (bytes - size f))

-- A run that takes in its next frame keeps its numbers consecutive and its count of bytes exact, and
-- its buffer stays within both limits or holds one frame alone.
pub retain-RingOk :
    (o : Options) (f : Frame) (r : RunState)
    → f.seq ≡ r.next_seq
    → RingOk o r
    → RingOk o (retain o f r)
unfolding retain
retain-RingOk o f r e ok = record {
  first = v.first;
  positive = v.positive;
  numbered = v.numbered;
  counted = v.counted;
  bounded = v.bounded;
  held = λ _.
      evict_held o (r.ring ++ (f ∷ [])) (r.bytes + size f)
        (omega (arith, length-append r.ring (f ∷ [])));
}
  where
    v :
        Evicted o
          (suc r.next_seq)
          (evict o (r.ring ++ (f ∷ [])) (r.bytes + size f)).0
          (evict o (r.ring ++ (f ∷ [])) (r.bytes + size f)).1
    v =
        evict-Evicted o ok.first (suc r.next_seq) (r.ring ++ (f ∷ [])) (r.bytes + size f)
          ok.positive (Consecutive-append ok.first r.next_seq r.ring f ok.numbered e)
          (omega (arith, ok.counted, total-append r.ring (f ∷ [])))

-- The frames after a given number.
abbrev pub newer : ℕ → List Frame → List Frame
newer k = keep (λ f. ltb k f.seq)

newer_all :
    (k first next : ℕ) (ring : List Frame)
    → k < first
    → Consecutive first ring next
    → newer k ring ≡ ring
newer_all k first next [] h c = refl
newer_all k first next (f ∷ ring) h c =
    ground (arith, newer_all k (suc first) next ring (omega arith) c.1)

-- What a client that has seen number k is still owed: k + 1 and all that follow, with none missing.
pub newer-Consecutive :
    (k first next : ℕ) (ring : List Frame)
    → first ≤ suc k
    → k < next
    → Consecutive first ring next
    → Consecutive (suc k) (newer k ring) next
newer-Consecutive k first next [] h l c = omega arith
newer-Consecutive k first next (f ∷ ring) h l c = elim (Bool-cases (ltb k first)) [
  | inl now ↦
      let start : first ≡ suc k = ground arith in
      rw (newer_all k first next (f ∷ ring) (ground arith) c)
        (subst (λ n. Consecutive n (f ∷ ring) next) start c)
  | inr later ↦
      let seen : ltb k f.seq ≡ false = ground (arith, c.0) in
      rw seen (newer-Consecutive k (suc first) next ring (ground arith) l c.1)
]
