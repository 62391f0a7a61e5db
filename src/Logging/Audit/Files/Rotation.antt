-- ===== src/Logging/Audit/Files/Rotation.antt =====
-- The rotation of the audit log's files (pkg/logging/audit.go).
use mcp_memory_core.Base.{
  ℕ, zero, suc, ◌+◌, ◌-◌, ◌≤◌, ◌<◌, ◌≡◌, ◌≢◌, refl, ◌∙◌, inl, inr, String, Bool, true, Option, none,
  some, List, [], eqb, arith, Bool-cases, Option-cases,
}
use mcp_memory_core.Base.Int.{pos}
use mcp_memory_core.Logging.Audit.Files.{AuditFiles, move_up, move_all, rotate}

module _ (can_move : ℕ → Bool) (moves : (i : ℕ) → can_move i ≡ true) where
  -- A file that is not there and one that moves leave the place free.
  moved_from : (max i : ℕ) (fs : ℕ → Option (List String)) → move_up can_move max i fs i ≡ none
  unfolding move_up
  moved_from max i fs = elim (Option-cases (fs i)) [
    | inl gone ↦ ground (arith, gone, moves i)
    | inr (f, here) ↦ ground (arith, here, moves i)
  ]

  moved_to :
      (max i : ℕ) (fs : ℕ → Option (List String))
      → i + 1 < max
      → fs (i + 1) ≡ none
      → move_up can_move max i fs (i + 1) ≡ fs i
  unfolding move_up
  moved_to max i fs h free = elim (Option-cases (fs i)) [
    | inl gone ↦ ground (arith, gone, free, moves i)
    | inr (f, here) ↦ ground (arith, here, free, moves i)
  ]

  moved_other :
      (max i k : ℕ) (fs : ℕ → Option (List String))
      → k ≢ i
      → k ≢ i + 1
      → move_up can_move max i fs k ≡ fs k
  unfolding move_up
  moved_other max i k fs h n = ground arith

  -- The oldest file is deleted, which leaves the next place alone.
  moved_last :
      (max i k : ℕ) (fs : ℕ → Option (List String))
      → i + 1 ≡ max
      → k ≢ i
      → move_up can_move max i fs k ≡ fs k
  unfolding move_up
  moved_last max i k fs h n = ground (arith, h)

  move_all_above :
      (max n k : ℕ) (fs : ℕ → Option (List String))
      → n + 1 < k
      → move_all can_move max n fs k ≡ fs k
  unfolding move_all
  move_all_above max zero k fs h = refl
  move_all_above max (suc n) k fs h =
      move_all_above max n k (move_up can_move max (suc n) fs) (omega arith)
      ∙ moved_other max (suc n) k fs (λ e. omega (arith, e)) (λ e. omega (arith, e))

  move_all_shifts :
      (max n k : ℕ) (fs : ℕ → Option (List String))
      → n + 1 < max
      → fs (n + 1) ≡ none
      → 1 ≤ k
      → k ≤ n
      → move_all can_move max n fs (k + 1) ≡ fs k
  unfolding move_all
  move_all_shifts max zero k fs below free h l = absurd (omega arith)
  move_all_shifts max (suc n) k fs below free h l =
      let f = move_up can_move max (suc n) fs in
      elim (Bool-cases (eqb k (suc n))) [
        | inl top ↦
            let e : k ≡ suc n = ground (arith, top) in
            rw e (
              move_all_above max n (suc n + 1) f (omega arith) ∙ moved_to max (suc n) fs below free)
        | inr under ↦
            let here : f (n + 1) ≡ none = rw (add_one n) (moved_from max (suc n) fs) in
            let less : k ≤ n = ground (arith, under) in
            move_all_shifts max n k f (omega arith) here h less
            ∙ moved_other max (suc n) k fs (λ e. omega (arith, e, less))
                (λ e. omega (arith, e, less))
      ]
    where
      add_one : (n : ℕ) → n + 1 ≡ suc n
      add_one n = omega arith

  -- What the loop of rotate does, for a positive number of files.
  loop_shifts :
      (max k : ℕ) (fs : ℕ → Option (List String))
      → 1 ≤ k
      → k + 1 < max
      → move_all can_move max (max - 1) fs (k + 1) ≡ fs k
  unfolding move_all
  loop_shifts zero k fs h l = absurd (omega arith)
  loop_shifts (suc zero) k fs h l = absurd (omega arith)
  loop_shifts (suc (suc m)) k fs h l =
      let f = move_up can_move (suc (suc m)) (suc m) fs in
      let e : suc (suc m) - 1 ≡ suc m = omega arith in
      let here : f (m + 1) ≡ none = rw (add_one m) (moved_from (suc (suc m)) (suc m) fs) in
      rw (e, move_all)
        (move_all_shifts (suc (suc m)) m k f (omega arith) here h (omega arith)
          ∙ moved_last (suc (suc m)) (suc m) k fs (omega arith) (λ x. omega (arith, x, l)))
    where
      add_one : (n : ℕ) → n + 1 ≡ suc n
      add_one n = omega arith

  loop_above :
      (max k : ℕ) (fs : ℕ → Option (List String))
      → 1 ≤ max
      → max ≤ k
      → move_all can_move max (max - 1) fs k ≡ fs k
  unfolding move_all
  loop_above zero k fs h l = absurd (omega arith)
  loop_above (suc zero) k fs h l = refl
  loop_above (suc (suc m)) k fs h l =
      let e : suc (suc m) - 1 ≡ suc m = omega arith in
      rw (e, move_all)
        (move_all_above (suc (suc m)) m k (move_up can_move (suc (suc m)) (suc m) fs) (omega arith)
          ∙ moved_last (suc (suc m)) (suc m) k fs (omega arith) (λ x. omega (arith, x, l)))

-- A rotation in which the operating system refuses nothing, neither for the log nor in removing and
-- renaming the rotated files, empties the log and gives its lines to the first rotated file; every
-- other rotated file gets the place after its own, except the oldest one, which is deleted. Files at
-- places from the maximum on stay.
pub rotate_shifts :
    (max : ℕ) (fs : AuditFiles) (lines : List String)
    → 1 ≤ max
    → fs.log ≡ some lines
    → fs.can_close ≡ true
    → fs.can_rename ≡ true
    → fs.can_open ≡ true
    → ((i : ℕ) → fs.can_move i ≡ true)
    → ((rotate (pos max) fs).log ≡ some [])
      × ((rotate (pos max) fs).rotated 1 ≡ some lines)
      × ((k : ℕ) → 1 ≤ k → k + 1 < max → (rotate (pos max) fs).rotated (k + 1) ≡ fs.rotated k)
      × ((k : ℕ) → max ≤ k → k ≢ 1 → (rotate (pos max) fs).rotated k ≡ fs.rotated k)
unfolding rotate
rotate_shifts max fs lines positive log close rename reopen moves = (
  ground (arith, log, close, rename, reopen),
  ground (arith, log, close, rename, reopen),
  λ k h l.
      ground
        (arith, log, close, rename, reopen, loop_shifts fs.can_move moves max k fs.rotated h l),
  λ k h n.
      ground (
        arith,
        log,
        close,
        rename,
        reopen,
        loop_above fs.can_move moves max k fs.rotated positive h,
      ),
)
