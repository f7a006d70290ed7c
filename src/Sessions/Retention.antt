-- ===== src/Sessions/Retention.antt =====
-- apps/lab-runtime/src/sessions.rs: what the store forgets: `expire`, `enforce_terminal_bounds`,
-- and the counts and the credit over the retained records.
use lab_runtime.Base.{
  ℕ, zero, suc, ◌+◌, ◌-◌, Bool, true, ◌||◌, not, Option, none, some, is_some, List, [], ◌∷◌, ◌++◌,
  ◌==◌, u64_eq, ltb, if◌then◌else◌, length, select, count, total,
}
use lab_runtime.Sessions.Types.{
  Text, Entry, Scope, SessionStore, terminal, terminal_ttl, idle_scope_ttl, max_terminal,
  max_terminal_scope,
}
use lab_runtime.Sessions.Scopes.{map_values, update, retain}

abbrev pub Scopes : Type 0 → Type 0
Scopes M = List (Text × Scope M)

-- `min_by_key`: the first of the earliest.
unfoldable pub earliest_from : ℕ × Text × ℕ → List (ℕ × Text × ℕ) → ℕ × Text × ℕ
earliest_from best [] = best
earliest_from best (x ∷ xs) = earliest_from (if ltb x.0 best.0 then x else best) xs

unfoldable pub earliest : List (ℕ × Text × ℕ) → Option (ℕ × Text × ℕ)
unfolding earliest_from
earliest [] = none
earliest (x ∷ xs) = some (earliest_from x xs)

module _ {M : Type 0} where
  unfoldable pub is_terminal : Entry M → Bool
  unfolding terminal
  is_terminal e = terminal e.state

  unfoldable pub is_pending : Entry M → Bool
  unfolding terminal
  is_pending e = not (terminal e.state)

  -- The number and the sum over the records of all scopes.
  unfoldable pub sum_scopes : (Scope M → ℕ) → Scopes M → ℕ
  sum_scopes f [] = 0
  sum_scopes f ((id, sc) ∷ rest) = f sc + sum_scopes f rest

  unfoldable pub pending_of : Scope M → ℕ
  unfolding is_pending
  pending_of sc = count is_pending sc.records

  unfoldable pub terminal_of : Scope M → ℕ
  unfolding is_terminal
  terminal_of sc = count is_terminal sc.records

  unfoldable pub charge_of : Scope M → ℕ
  charge_of sc = total (λ (e : Entry M). e.provisioning_charge) sc.records

  unfoldable pub pending_count : Scopes M → ℕ
  unfolding sum_scopes pending_of
  pending_count scopes = sum_scopes pending_of scopes

  unfoldable pub terminal_count : Scopes M → ℕ
  unfolding sum_scopes terminal_of
  terminal_count scopes = sum_scopes terminal_of scopes

  unfoldable pub charged : Scopes M → ℕ
  unfolding sum_scopes charge_of
  charged scopes = sum_scopes charge_of scopes

  unfoldable pub recount_provisioning_credit : SessionStore M → SessionStore M
  unfolding charged
  recount_provisioning_credit s = record s { retained_provisioning_bytes = charged s.scopes }

  unfoldable pub keep_entry : ℕ → Entry M → Bool
  keep_entry now e = elim e.terminal_at [
    | none ↦ true
    | some at ↦ ltb now at || ltb (now - at) terminal_ttl
  ]

  unfoldable pub expire_records : ℕ → Scope M → Scope M
  unfolding keep_entry
  expire_records now sc = record sc { records = select (keep_entry now) sc.records }

  unfoldable pub keep_scope : ℕ → Scope M → Bool
  unfolding pending_of
  keep_scope now sc =
      is_some sc.attached
      || ltb 0 (pending_of sc)
      || ltb now sc.last_active
      || ltb (now - sc.last_active) idle_scope_ttl

  unfoldable pub expire : ℕ → SessionStore M → SessionStore M
  unfolding expire_records keep_scope recount_provisioning_credit map_values retain
  expire now s =
      recount_provisioning_credit
        (record s { scopes = retain (keep_scope now) (map_values (expire_records now) s.scopes) })

  -- `records.remove(index)` at the first index where the test holds.
  unfoldable pub drop_first : (Entry M → Bool) → List (Entry M) → List (Entry M)
  drop_first p [] = []
  drop_first p (e ∷ es) = let rest = drop_first p es in if p e then es else e ∷ rest

  -- The loop over one scope, on fuel.
  unfoldable pub trim : ℕ → List (Entry M) → List (Entry M)
  unfolding drop_first is_terminal
  trim zero es = es
  trim (suc f) es =
      let rest = trim f (drop_first is_terminal es) in
      if ltb max_terminal_scope (count is_terminal es) then rest else es

  unfoldable pub trim_scope : Scope M → Scope M
  unfolding trim
  trim_scope sc = record sc { records = trim (length sc.records) sc.records }

  -- The terminal times of the records of a scope and of all scopes, with their places.
  unfoldable pub stamps : Text → List (Entry M) → List (ℕ × Text × ℕ)
  stamps id [] = []
  stamps id (e ∷ es) =
      let rest = stamps id es in
      elim e.terminal_at [ none ↦ rest | some at ↦ (at, id, e.seq) ∷ rest ]

  unfoldable pub all_stamps : Scopes M → List (ℕ × Text × ℕ)
  unfolding stamps
  all_stamps [] = []
  all_stamps ((id, sc) ∷ rest) = stamps id sc.records ++ all_stamps rest

  unfoldable pub has_seq : ℕ → Entry M → Bool
  has_seq q e = e.seq == q

  unfoldable pub drop_seq : ℕ → Scope M → Scope M
  unfolding drop_first has_seq
  drop_seq q sc = record sc { records = drop_first (has_seq q) sc.records }

  unfoldable pub evict_oldest : Scopes M → Scopes M
  unfolding earliest all_stamps update drop_seq
  evict_oldest scopes = elim (earliest (all_stamps scopes)) [
    | none ↦ scopes
    | some (at, id, q) ↦ update id (drop_seq q) scopes
  ]

  -- The loop over all scopes, on fuel.
  unfoldable pub evict : ℕ → Scopes M → Scopes M
  unfolding evict_oldest terminal_count
  evict zero scopes = scopes
  evict (suc f) scopes =
      let rest = evict f (evict_oldest scopes) in
      if ltb max_terminal (terminal_count scopes) then rest else scopes

  unfoldable pub enforce_terminal_bounds : Scopes M → Scopes M
  unfolding trim_scope evict map_values terminal_count
  enforce_terminal_bounds scopes =
      let trimmed = map_values trim_scope scopes in evict (terminal_count trimmed) trimmed
