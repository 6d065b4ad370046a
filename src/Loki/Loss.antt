-- ===== src/Loki/Loss.antt =====
-- Lists that lose some of their entries: what is left of the events that the exporter was given.
use mcp_switchboard.Prelude.{
  ℕ, zero, suc, ◌+◌, ◌≡◌, refl, sym, ap, subst, ◌⊎◌, inl, inr, List, [], ◌∷◌, ◌++◌, length, take,
  drop, arith,
}

module _ {A : Type 0} where
  -- The first list is the last one in its order, with so many entries left out.
  abbrev pub LeavesOut : List A → ℕ → List A → Type 0
  LeavesOut [] n [] = n ≡ 0
  LeavesOut (k ∷ ks) n [] = ⊥
  LeavesOut ks n (x ∷ xs) =
      ((m : ℕ) × (n ≡ suc m) × LeavesOut ks m xs)
      ⊎ ((rest : List A) × (ks ≡ x ∷ rest) × LeavesOut rest n xs)

  pub cast :
      (ks ks' : List A) (m n : ℕ) (xs : List A)
      → ks ≡ ks'
      → m ≡ n
      → LeavesOut ks m xs
      → LeavesOut ks' n xs
  cast ks ks' m n xs e f l = subst (λ k. LeavesOut k n xs) e (subst (λ i. LeavesOut ks i xs) f l)

  pub append_lost :
      (ks : List A) (n : ℕ) (xs : List A) (x : A)
      → LeavesOut ks n xs
      → LeavesOut ks (suc n) (xs ++ (x ∷ []))
  append_lost [] n [] x e = inl (0, ap suc e, refl)
  append_lost (k ∷ ks) n [] x e = absurd e
  append_lost ks n (y ∷ xs) x (inl (m, e, l)) = inl (suc m, ap suc e, append_lost ks m xs x l)
  append_lost ks n (y ∷ xs) x (inr (rest, e, l)) = inr (rest, e, append_lost rest n xs x l)

  pub append_kept :
      (ks : List A) (n : ℕ) (xs : List A) (x : A)
      → LeavesOut ks n xs
      → LeavesOut (ks ++ (x ∷ [])) n (xs ++ (x ∷ []))
  append_kept [] n [] x e = inr ([], refl, e)
  append_kept (k ∷ ks) n [] x e = absurd e
  append_kept ks n (y ∷ xs) x (inl (m, e, l)) = inl (m, e, append_kept ks m xs x l)
  append_kept ks n (y ∷ xs) x (inr (rest, e, l)) =
      inr (rest ++ (x ∷ []), ap (λ k. k ++ (x ∷ [])) e, append_kept rest n xs x l)

  same_tail : (x y : A) (xs ys : List A) → x ∷ xs ≡ y ∷ ys → ys ≡ xs
  same_tail x y xs ys e = cc

  same_head : (x y : A) (xs ys zs : List A) → x ∷ xs ≡ y ∷ ys → x ∷ zs ≡ y ∷ zs
  same_head x y xs ys zs e = cc

  lose_one :
      (front : List A) (x : A) (back : List A) (n : ℕ) (xs : List A)
      → LeavesOut (front ++ (x ∷ back)) n xs
      → LeavesOut (front ++ back) (suc n) xs
  lose_one [] x back n [] l = absurd l
  lose_one (k ∷ front) x back n [] l = absurd l
  lose_one front x back n (y ∷ xs) (inl (m, e, l)) =
      inl (n, refl, cast _ _ (suc m) n xs refl (sym e) (lose_one front x back m xs l))
  lose_one [] x back n (y ∷ xs) (inr (rest, e, l)) =
      inl (n, refl, cast rest back n n xs (same_tail x y back rest e) refl l)
  lose_one (k ∷ front) x back n (y ∷ xs) (inr (rest, e, l)) = inr (
    front ++ back,
    same_head k y (front ++ (x ∷ back)) rest (front ++ back) e,
    lose_one front x back n xs (
        cast rest (front ++ (x ∷ back)) n n xs (same_tail k y (front ++ (x ∷ back)) rest e) refl l),
  )

  -- Entries that stand together get lost.
  pub lose :
      (front gone back : List A) (n : ℕ) (xs : List A)
      → LeavesOut (front ++ (gone ++ back)) n xs
      → LeavesOut (front ++ back) (n + length gone) xs
  lose front [] back n xs l = cast _ _ n (n + 0) xs refl (omega arith) l
  lose front (x ∷ gone) back n xs l =
      cast _ _ (suc n + length gone) (n + suc (length gone)) xs refl (omega arith)
        (lose front gone back (suc n) xs (lose_one front x (gone ++ back) n xs l))

  pub append_assoc : (xs ys zs : List A) → (xs ++ ys) ++ zs ≡ xs ++ (ys ++ zs)
  append_assoc [] ys zs = refl
  append_assoc (x ∷ xs) ys zs = ap (λ r. x ∷ r) (append_assoc xs ys zs)

  pub append_nil : (xs : List A) → xs ++ [] ≡ xs
  append_nil [] = refl
  append_nil (x ∷ xs) = ap (λ r. x ∷ r) (append_nil xs)

  pub take-drop : (n : ℕ) (xs : List A) → take n xs ++ drop n xs ≡ xs
  take-drop zero xs = refl
  take-drop (suc n) [] = refl
  take-drop (suc n) (x ∷ xs) = ap (λ r. x ∷ r) (take-drop n xs)
