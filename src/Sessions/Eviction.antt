-- ===== src/Sessions/Eviction.antt =====
-- apps/lab-runtime/src/sessions.rs: the loops of `enforce_terminal_bounds` end within their fuel and
-- their bounds, and remove terminal records only.
use lab_runtime.Base.{
  ℕ, zero, suc, ◌+◌, ◌≤◌, ◌<◌, ◌≡◌, Bool, true, some, is_some, List, [], ◌∷◌, u64_eq, ltb,
  Bool-cases, inl, inr, arith, length, count, Every,
}
use lab_runtime.Sessions.Types.{Entry, terminal, max_terminal_scope}
use lab_runtime.Sessions.Retention.{drop_first, trim, is_terminal, has_seq}
use lab_runtime.Sessions.Store.{find}
use lab_runtime.Sessions.Records.{Ordered, Dated, HasDated}

module _ {M : Type 0} where
  pub drop_terminal :
      (es : List (Entry M))
      → ltb 0 (count is_terminal es) ≡ true
      → (count is_terminal (drop_first is_terminal es) + 1 ≡ count is_terminal es)
        × (length (drop_first is_terminal es) + 1 ≡ length es)
  unfolding drop_first
  drop_terminal [] h = (ground arith, ground arith)
  drop_terminal (e ∷ es) h = elim (Bool-cases (is_terminal e)) [
    | inl here ↦ (ground arith, ground arith)
    | inr past ↦
        let rest = drop_terminal es (ground arith) in (ground (arith, rest), ground (arith, rest))
  ]

  pub count-length : (p : Entry M → Bool) (es : List (Entry M)) → count p es ≤ length es
  count-length p [] = omega arith
  count-length p (e ∷ es) = ground (arith, count-length p es)

  -- The fuel suffices: at most 32 terminal records stay.
  pub trim_bounds :
      (f : ℕ) (es : List (Entry M))
      → length es ≤ f
      → count is_terminal (trim f es) ≤ max_terminal_scope
  unfolding trim
  trim_bounds zero es h = omega (arith, count-length is_terminal es)
  trim_bounds (suc f) es h = elim (Bool-cases (ltb max_terminal_scope (count is_terminal es))) [
    | inl more ↦
        let (fewer, shorter) = drop_terminal es (ground arith) in
        rw more (trim_bounds f (drop_first is_terminal es) (omega (arith, shorter, h)))
    | inr enough ↦ rw enough (ground arith)
  ]

  -- Every stamp is that of a dated record.
  pub HasDated-above :
      (lo hi q : ℕ) (es : List (Entry M)) → HasDated q es → Ordered lo es hi → lo < q
  unfolding HasDated Ordered
  HasDated-above lo hi q [] h o = absurd h
  HasDated-above lo hi q (e ∷ es) (inl here) o = omega (arith, here.0, o.0)
  HasDated-above lo hi q (e ∷ es) (inr past) o =
      omega (arith, HasDated-above e.seq hi q es past o.1, o.0)

  pub drop_first_at :
      (lo hi q : ℕ) (es : List (Entry M))
      → HasDated q es
      → Ordered lo es hi
      → Every Dated es
      → (count is_terminal (drop_first (has_seq q) es) + 1 ≡ count is_terminal es)
  unfolding HasDated Ordered Dated drop_first has_seq is_terminal
  drop_first_at lo hi q [] h o dated = absurd h
  drop_first_at lo hi q (e ∷ es) (inl here) o dated =
      let first : terminal e.state ≡ true = ground (arith, dated.0, here) in
      ground (arith, first, here)
  drop_first_at lo hi q (e ∷ es) (inr past) o dated =
      ground
        (arith, HasDated-above e.seq hi q es past o.1, drop_first_at e.seq hi q es past o.1 dated.1)

  pub find_dated :
      (lo hi q : ℕ) (e : Entry M) (es : List (Entry M))
      → HasDated q es
      → Ordered lo es hi
      → find q es ≡ some e
      → is_some e.terminal_at ≡ true
  unfolding HasDated Ordered find
  find_dated lo hi q e [] h o found = absurd h
  find_dated lo hi q e (x ∷ es) (inl here) o found = ground (arith, here)
  find_dated lo hi q e (x ∷ es) (inr past) o found =
      let above = HasDated-above x.seq hi q es past o.1 in
      find_dated x.seq hi q e es past o.1 (ground (arith, above))
