-- ===== src/ProbeOps/Authority.antt =====
-- src/lws/probe_ops.py: when an observation grants the authority to open, to close or to adopt.
use localshell_web_superviso.Base.{
  ℕ, ◌≤◌, Bool, true, false, Option, some, is_some, List, [], ◌∷◌, ltb, ◌≡◌, ◌↔◌, ◌⊎◌, refl, arith,
  ok, Returns, Letters,
}
use localshell_web_superviso.Models.Task.{ProbeMutationState}
use localshell_web_superviso.Models.Mutation.{
  ProbeMutationKind, ProbeWindowSlotBinding, ProbeMutationOperation,
}
use localshell_web_superviso.ProbeOps.Slots.{
  Conversions, snapshot_probe_slot, slot_from_snapshot-snapshot,
}
use localshell_web_superviso.ProbeOps.Observation.{
  ProbeWindowMatch, ProbeMutationObservation, ProbeReconcileDecision, effective_state,
}
use localshell_web_superviso.ProbeOps.Decide.{
  match_is_exact_new, match_is_exact_old, is_armed, is_open_submitted, before_open, by_presence,
  first, from_matches, has_error, decide_probe_reconciliation, matches_slot, by_identity,
}

-- The kinds and states in which a new window was not yet asked for.
abbrev pub MayOpen : ProbeMutationKind → ProbeMutationState → Type 0
MayOpen ProbeMutationKind.open_probe s = is_armed s ≡ true
MayOpen ProbeMutationKind.close_probe s = ⊥
MayOpen ProbeMutationKind.rotate_probe s = before_open s ≡ true

-- The kinds and states in which the old window was not yet asked to close.
abbrev pub MayClose : ProbeMutationKind → ProbeMutationState → Type 0
MayClose ProbeMutationKind.open_probe s = ⊥
MayClose ProbeMutationKind.close_probe s = is_armed s ≡ true
MayClose ProbeMutationKind.rotate_probe s = is_armed s ≡ true

-- The kinds and states in which a new window is expected.
abbrev pub Expects : ProbeMutationKind → ProbeMutationState → Type 0
Expects ProbeMutationKind.close_probe s = ⊥
Expects _ s = is_open_submitted s ≡ true

-- Whether the operation is a mere close.
abbrev pub Closes : ProbeMutationKind → Type 0
Closes ProbeMutationKind.close_probe = Unit
Closes _ = ⊥

-- No window at all, before a new one was asked for.
abbrev pub OpensAt : ProbeMutationOperation → List ProbeWindowMatch → List ProbeWindowMatch → Type 0
OpensAt operation [] [] = MayOpen operation.kind (effective_state operation)
OpensAt operation (m ∷ ms) news = ⊥
OpensAt operation [] (m ∷ ms) = ⊥

module _ (letters : Letters) (prior : Option ProbeWindowSlotBinding) where
  -- Only the old window, with the identity of the slot, before it was asked to close.
  abbrev pub ClosesAt :
      ProbeMutationOperation → List ProbeWindowMatch → List ProbeWindowMatch → Type 0
  ClosesAt operation (m ∷ []) [] =
      (matches_slot letters prior m ≡ true) × MayClose operation.kind (effective_state operation)
  ClosesAt operation _ _ = ⊥

  -- Only the new window, with the expected identity, after it was asked for.
  abbrev pub AdoptsAt :
      ProbeMutationOperation → List ProbeWindowMatch → List ProbeWindowMatch → Type 0
  AdoptsAt operation [] (m ∷ []) =
      (match_is_exact_new letters operation m ≡ true)
      × Expects operation.kind (effective_state operation)
  AdoptsAt operation _ _ = ⊥

-- A close with no window left.
abbrev pub ClosedAt :
    ProbeMutationOperation → List ProbeWindowMatch → List ProbeWindowMatch → Type 0
ClosedAt operation [] [] = Closes operation.kind
ClosedAt operation _ _ = ⊥

abbrev pub is_completed_probe : ProbeMutationState → Bool
is_completed_probe ProbeMutationState.completed_probe = true
is_completed_probe _ = false

-- A decision opens, closes, adopts or completes exactly at the windows where it may.
pub Grants :
    Letters
    → Option ProbeWindowSlotBinding
    → ProbeMutationOperation
    → List ProbeWindowMatch
    → List ProbeWindowMatch
    → ProbeReconcileDecision
    → Type 0
Grants letters prior operation olds news d =
    ((d.may_open ≡ true) ↔ OpensAt operation olds news)
    × ((d.may_close ≡ true) ↔ ClosesAt letters prior operation olds news)
    × ((is_some d.adopt_binding ≡ true) ↔ AdoptsAt letters prior operation olds news)
    × ((is_completed_probe d.next_state ≡ true)
        ↔ (AdoptsAt letters prior operation olds news ⊎ ClosedAt operation olds news))

module _ (letters : Letters) (c : Conversions) (prior : Option ProbeWindowSlotBinding) where
  module _ (operation : ProbeMutationOperation) (at : ℕ) where
    matched_old :
        (m : ProbeWindowMatch)
        → operation.prior_slot ≡ snapshot_probe_slot prior
        → match_is_exact_old letters c operation m ≡ ok (matches_slot letters prior m)
    unfolding match_is_exact_old
    matched_old m e = rw (e, slot_from_snapshot-snapshot c prior) refl

    identified :
        (m : ProbeWindowMatch) (news : List ProbeWindowMatch)
        → Grants letters prior operation (m ∷ []) news (
            by_identity letters c operation at (some m) (first news) (matches_slot letters prior m))
    unfolding by_presence Grants
    identified m [] = ground arith
    identified m (n ∷ []) = ground arith
    identified m (n ∷ n' ∷ ns) = ground arith

    from_matches-Grants :
        (olds news : List ProbeWindowMatch)
        → operation.prior_slot ≡ snapshot_probe_slot prior
        → Returns
            (Grants letters prior operation olds news)
            (from_matches letters c operation at olds news)
    unfolding from_matches by_presence Grants
    from_matches-Grants [] [] e = ground arith
    from_matches-Grants [] (n ∷ []) e = ground arith
    from_matches-Grants [] (n ∷ n' ∷ ns) e = ground arith
    from_matches-Grants (m ∷ []) [] e = rw (matched_old m e) (identified m [])
    from_matches-Grants (m ∷ []) (n ∷ []) e = rw (matched_old m e) (identified m (n ∷ []))
    from_matches-Grants (m ∷ []) (n ∷ n' ∷ ns) e = ground arith
    from_matches-Grants (m ∷ m' ∷ ms) news e = ground arith

-- An observation of the past that is complete and has no error.
abbrev pub IsReliable : ProbeMutationObservation → ℕ → Type 0
IsReliable seen now =
    (seen.observed_at ≤ now) × (seen.complete ≡ true) × (has_error seen.error ≡ false)

-- From a reliable observation, with a recorded slot, the reconciliation returns, and its decision
-- lets a window be opened exactly if none is there and none was asked for, closed exactly if only
-- the recorded one is there and it was not asked to close, and adopted exactly if only the expected
-- one is there and was asked for; the operation completes only by an adoption or, for a close, with
-- no window left.
pub authority_exactly :
    (letters : Letters) (c : Conversions) (prior : Option ProbeWindowSlotBinding)
    (operation : ProbeMutationOperation) (seen : ProbeMutationObservation) (now : ℕ)
    → operation.prior_slot ≡ snapshot_probe_slot prior
    → IsReliable seen now
    → Returns
        (Grants letters prior operation seen.old_matches seen.new_matches)
        (decide_probe_reconciliation letters c operation seen now)
unfolding decide_probe_reconciliation
authority_exactly letters c prior operation seen now e (t, f, n) =
    let h =
      from_matches-Grants letters c prior operation seen.observed_at seen.old_matches
        seen.new_matches e in
    let late : ltb now seen.observed_at ≡ false = ground arith in rw (late, f, n) h
