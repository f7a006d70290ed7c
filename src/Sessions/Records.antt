-- ===== src/Sessions/Records.antt =====
-- apps/lab-runtime/src/sessions.rs: the records of one scope stand in the order of their numbers,
-- and the terminal ones are dated; what the operations on them keep.
use lab_runtime.Base.{
  ℕ, ◌+◌, ◌≤◌, ◌<◌, ◌≡◌, ◌⊎◌, refl, Bool, true, is_some, List, [], ◌∷◌, ◌++◌, ◌==◌, u64_eq,
  Bool-cases, inl, inr, arith, select, count, total, Every,
}
use lab_runtime.Sessions.Types.{Entry, OperationState, terminal}
use lab_runtime.Sessions.Retention.{drop_first, is_pending}
use lab_runtime.Sessions.Store.{complete_entry}

module _ {M : Type 0} where
  -- The numbers rise strictly from above `lo` to `hi`.
  unfoldable pub Ordered : ℕ → List (Entry M) → ℕ → Type 0
  Ordered lo [] hi = lo ≤ hi
  Ordered lo (e ∷ es) hi = (lo < e.seq) × Ordered e.seq es hi

  unfoldable pub Dated : Entry M → Type 0
  unfolding terminal
  Dated e = terminal e.state ≡ is_some e.terminal_at

  -- Some record of the number `q` is dated.
  unfoldable pub HasDated : ℕ → List (Entry M) → Type 0
  HasDated q [] = ⊥
  HasDated q (e ∷ es) = ((e.seq ≡ q) × (is_some e.terminal_at ≡ true)) ⊎ HasDated q es

  pub Ordered-lower :
      (lo lo' hi : ℕ) (es : List (Entry M)) → lo' ≤ lo → Ordered lo es hi → Ordered lo' es hi
  unfolding Ordered
  Ordered-lower lo lo' hi [] h o = omega (arith, h, o)
  Ordered-lower lo lo' hi (e ∷ es) h o = (omega (arith, h, o.0), o.1)

  pub Ordered-append :
      (lo hi : ℕ) (es : List (Entry M)) (e : Entry M)
      → Ordered lo es hi
      → e.seq ≡ hi + 1
      → Ordered lo (es ++ e ∷ []) e.seq
  unfolding Ordered
  Ordered-append lo hi [] e o h = (omega (arith, o, h), omega arith)
  Ordered-append lo hi (x ∷ es) e o h = (o.0, Ordered-append x.seq hi es e o.1 h)

  pub select-Ordered :
      (p : Entry M → Bool) (lo hi : ℕ) (es : List (Entry M))
      → Ordered lo es hi
      → Ordered lo (select p es) hi
  unfolding Ordered
  select-Ordered p lo hi [] o = o
  select-Ordered p lo hi (e ∷ es) o =
      let rest = select-Ordered p e.seq hi es o.1 in
      elim (Bool-cases (p e)) [
        | inl kept ↦ rw kept (o.0, rest)
        | inr dropped ↦
            rw dropped (Ordered-lower e.seq lo hi (select p es) (omega (arith, o.0)) rest)
      ]

  pub drop_first-Ordered :
      (p : Entry M → Bool) (lo hi : ℕ) (es : List (Entry M))
      → Ordered lo es hi
      → Ordered lo (drop_first p es) hi
  unfolding Ordered drop_first
  drop_first-Ordered p lo hi [] o = o
  drop_first-Ordered p lo hi (e ∷ es) o = elim (Bool-cases (p e)) [
    | inl dropped ↦ rw dropped (Ordered-lower e.seq lo hi es (omega (arith, o.0)) o.1)
    | inr kept ↦ rw kept (o.0, drop_first-Ordered p e.seq hi es o.1)
  ]

  pub complete_entry-Ordered :
      (q : ℕ) (state : OperationState) (now lo hi : ℕ) (es : List (Entry M))
      → Ordered lo es hi
      → Ordered lo (complete_entry q state now es) hi
  unfolding Ordered complete_entry
  complete_entry-Ordered q state now lo hi [] o = o
  complete_entry-Ordered q state now lo hi (e ∷ es) o = elim (Bool-cases (e.seq == q)) [
    | inl here ↦ rw here o
    | inr past ↦ rw past (o.0, complete_entry-Ordered q state now e.seq hi es o.1)
  ]

  module _ (Q : Entry M → Type 0) where
    pub select-Every :
        (p : Entry M → Bool) (es : List (Entry M)) → Every Q es → Every Q (select p es)
    select-Every p [] each = tt
    select-Every p (e ∷ es) each =
        let rest = select-Every p es each.1 in
        elim (Bool-cases (p e)) [
          | inl kept ↦ rw kept (each.0, rest)
          | inr dropped ↦ rw dropped rest
        ]

    pub drop_first-Every :
        (p : Entry M → Bool) (es : List (Entry M)) → Every Q es → Every Q (drop_first p es)
    unfolding drop_first
    drop_first-Every p [] each = tt
    drop_first-Every p (e ∷ es) each =
        let rest = drop_first-Every p es each.1 in
        elim (Bool-cases (p e)) [
          | inl dropped ↦ rw dropped each.1
          | inr kept ↦ rw kept (each.0, rest)
        ]

    pub append-Every :
        (es : List (Entry M)) (e : Entry M) → Every Q es → Q e → Every Q (es ++ e ∷ [])
    append-Every [] e each new = (new, tt)
    append-Every (x ∷ es) e each new = (each.0, append-Every es e each.1 new)

  pub complete_entry-Dated :
      (q : ℕ) (state : OperationState) (now : ℕ) (es : List (Entry M))
      → terminal state ≡ true
      → Every Dated es
      → Every Dated (complete_entry q state now es)
  unfolding Dated complete_entry
  complete_entry-Dated q state now [] done each = tt
  complete_entry-Dated q state now (e ∷ es) done each =
      let rest = complete_entry-Dated q state now es done each.1 in
      elim (Bool-cases (e.seq == q)) [
        | inl here ↦ rw here (done, each.1)
        | inr past ↦ rw past (each.0, rest)
      ]

  -- Counts and charges do not rise.
  pub count-select :
      (p r : Entry M → Bool) (es : List (Entry M)) → count p (select r es) ≤ count p es
  count-select p r [] = omega arith
  count-select p r (e ∷ es) = ground (arith, count-select p r es)

  pub total-select :
      (f : Entry M → ℕ) (r : Entry M → Bool) (es : List (Entry M))
      → total f (select r es) ≤ total f es
  total-select f r [] = omega arith
  total-select f r (e ∷ es) = ground (arith, total-select f r es)

  pub count-drop_first :
      (p r : Entry M → Bool) (es : List (Entry M)) → count p (drop_first r es) ≤ count p es
  unfolding drop_first
  count-drop_first p r [] = omega arith
  count-drop_first p r (e ∷ es) = ground (arith, count-drop_first p r es)

  pub total-drop_first :
      (f : Entry M → ℕ) (r : Entry M → Bool) (es : List (Entry M))
      → total f (drop_first r es) ≤ total f es
  unfolding drop_first
  total-drop_first f r [] = omega arith
  total-drop_first f r (e ∷ es) = ground (arith, total-drop_first f r es)

  pub count-append :
      (p : Entry M → Bool) (es : List (Entry M)) (e : Entry M)
      → count p (es ++ e ∷ []) ≡ count p es + count p (e ∷ [])
  count-append p [] e = ground arith
  count-append p (x ∷ es) e = ground (arith, count-append p es e)

  pub total-append :
      (f : Entry M → ℕ) (es : List (Entry M)) (e : Entry M)
      → total f (es ++ e ∷ []) ≡ total f es + f e
  total-append f [] e = omega arith
  total-append f (x ∷ es) e = omega (arith, total-append f es e)

  pub pending-complete_entry :
      (q : ℕ) (state : OperationState) (now : ℕ) (es : List (Entry M))
      → terminal state ≡ true
      → count is_pending (complete_entry q state now es) ≤ count is_pending es
  unfolding complete_entry is_pending
  pending-complete_entry q state now [] done = omega arith
  pending-complete_entry q state now (e ∷ es) done =
      ground (arith, pending-complete_entry q state now es done)

  pub charge-complete_entry :
      (q : ℕ) (state : OperationState) (now : ℕ) (es : List (Entry M))
      → total (λ (e : Entry M). e.provisioning_charge) (complete_entry q state now es)
        ≡ total (λ (e : Entry M). e.provisioning_charge) es
  unfolding complete_entry
  charge-complete_entry q state now [] = refl
  charge-complete_entry q state now (e ∷ es) = ground (arith, charge-complete_entry q state now es)
