-- ===== src/Memleak/Report/Shown.antt =====
-- memleak/memleak.cpp, what the reports show.
use mathlib.Core.List.{append_assoc, append-nil}
use tripping_robot.Prelude.{ℕ, zero, suc, ◌<◌, ◌≡◌, ◌≢◌, refl, sym, ap, ◌∙◌, arith}
use tripping_robot.Prelude.{
  Bool, true, false, Option, none, some, List, [], ◌∷◌, ◌++◌, ◌&&◌, ◌||◌, ◌==◌, not, if◌then◌else◌,
  length, ℕ_discrete, Bool-cases, inl, inr,
}
use tripping_robot.Memleak.{
  AllocRecord, Memleak, alloc_list, Message, records_line, count_only, ok, update, load_next,
  load_record, store_record, ml_log,
}
use tripping_robot.Memleak.Report.{is_tight, is_suppress0, is_changed, report_record, report_loop}
use tripping_robot.Memleak.Sites.Linked.{
  Linked, NotIn, Distinct, first_or, update_self, update_other,
}
use tripping_robot.Memleak.Sites.Push.{Held, Held-update, not_head}

-- Does a report with these flags show the record?
unfoldable pub is_shown : ℕ → AllocRecord → Bool
is_shown flags r =
    (not (is_changed flags) || r.dirty) && (not (is_suppress0 flags) || not (0 == r.cnt))

unfoldable pub line_of : ℕ → AllocRecord → Message
line_of flags r =
    if is_tight flags
    then count_only r.cnt
    else records_line r.cnt r.mem_total r.file r.line r.overallocations

-- The lines of a report on a list of records, and the list that it leaves.
unfoldable pub lines : ℕ → List AllocRecord → List Message
lines flags [] = []
lines flags (r ∷ rs) =
    let rest = lines flags rs in if is_shown flags r then line_of flags r ∷ rest else rest

unfoldable pub cleaned : ℕ → AllocRecord → AllocRecord
cleaned flags r = if is_shown flags r then record r { dirty = false } else r

unfoldable pub all_cleaned : ℕ → List AllocRecord → List AllocRecord
all_cleaned flags [] = []
all_cleaned flags (r ∷ rs) = cleaned flags r ∷ all_cleaned flags rs

-- A record without its mark of a change.
abbrev pub erased : Option AllocRecord → Option AllocRecord
erased none = none
erased (some r) = some (record r { dirty = false })

module _ (flags p : ℕ) (s : Memleak) (r : AllocRecord) (at : s.records p ≡ some r) where
  report_record-shown :
      is_shown flags r ≡ true
      → report_record flags p s
        ≡ ok tt (record s {
          records = update s.records p (record r { dirty = false });
          log = s.log ++ line_of flags r ∷ [];
        })
  unfolding report_record is_shown line_of load_record store_record ml_log
  report_record-shown shown = simp at ground arith

  report_record-hidden : is_shown flags r ≡ false → report_record flags p s ≡ ok tt s
  unfolding report_record is_shown load_record
  report_record-hidden hidden = simp at ground arith

-- What one round of the loop does.
report_record-run :
    (flags p : ℕ) (s : Memleak) (r : AllocRecord)
    → s.records p ≡ some r
    → (f : ℕ → Option AllocRecord) × (report_record flags p s
        ≡ ok tt (record s { records = f; log = s.log ++ lines flags (r ∷ []) }))
      × (f p ≡ some (cleaned flags r))
      × ((ps : List ℕ) (xs : List AllocRecord) → NotIn p ps → Held s.records ps xs → Held f ps xs)
      × ((q : ℕ) → erased (s.records q) ≡ erased (f q))
      × ((q : ℕ) → q ≢ p → f q ≡ s.records q)
unfolding lines cleaned
report_record-run flags p s r at = elim (Bool-cases (is_shown flags r)) [
  | inl shown ↦
      let r' : AllocRecord = record r { dirty = false } in
      (
        update s.records p r',
        report_record-shown flags p s r at shown ∙ simp shown,
        update_self s.records p r' ∙ simp shown,
        λ ps xs out h. Held-update s.records p r' ps xs out h,
        λ q. elim (ℕ_discrete q p) [
          | yes here ↦
              ap erased (ap s.records here ∙ at)
              ∙ sym (ap erased (ap (update s.records p r') here ∙ update_self s.records p r'))
          | no other ↦ ap erased (sym (update_other s.records p r' q other))
        ],
        update_other s.records p r',
      )
  | inr hidden ↦ (
    s.records,
    report_record-hidden flags p s r at hidden ∙ simp (hidden, append-nil s.log),
    at ∙ simp hidden,
    λ ps xs out h. h,
    λ q. refl,
    λ q _. refl,
  )
]

lines-cons :
    (flags : ℕ) (r : AllocRecord) (rs : List AllocRecord)
    → lines flags (r ∷ []) ++ lines flags rs ≡ lines flags (r ∷ rs)
unfolding lines
lines-cons flags r rs = elim (Bool-cases (is_shown flags r)) [
  | inl shown ↦ simp shown
  | inr hidden ↦ simp hidden
]

pub next-Linked :
    (next prev : ℕ → Option ℕ) (p b : ℕ) (ps : List ℕ)
    → Linked next prev p ps b
    → next p ≡ some (first_or ps b)
next-Linked next prev p b [] l = l.0
next-Linked next prev p b (q ∷ ps) l = l.0.0

-- What the loop of a report leaves of the records, and the lines that it logs.
abbrev pub Reported : ℕ → ℕ → ℕ → Memleak → List ℕ → List AllocRecord → Type 0
Reported flags fuel it s ps xs =
    (f : ℕ → Option AllocRecord) × (report_loop flags fuel it s
      ≡ ok tt (record s { records = f; log = s.log ++ lines flags xs }))
    × Held f ps (all_cleaned flags xs)
    × ((q : ℕ) → erased (s.records q) ≡ erased (f q))
    × ((q : ℕ) → NotIn q ps → f q ≡ s.records q)

module _ (flags fuel p : ℕ) (s : Memleak) (f : ℕ → Option AllocRecord) (ms : List Message)
    (q : ℕ) where
  report_loop-step :
      alloc_list ≢ p
      → report_record flags p s ≡ ok tt (record s { records = f; log = ms })
      → s.next p ≡ some q
      → report_loop flags (suc fuel) p s
        ≡ report_loop flags fuel q (record s { records = f; log = ms })
  unfolding report_loop load_next
  report_loop-step ne runs next = simp (not_head p ne, runs, next)

pub report_loop-Reported :
    (flags fuel a : ℕ) (s : Memleak) (ps : List ℕ) (xs : List AllocRecord)
    → Linked s.next s.prev a ps alloc_list
    → NotIn alloc_list ps
    → Distinct ps
    → Held s.records ps xs
    → length ps < fuel
    → Reported flags fuel (first_or ps alloc_list) s ps xs
unfolding report_loop all_cleaned lines
report_loop-Reported flags zero a s ps xs l out d h more = absurd (omega arith)
report_loop-Reported flags (suc fuel) a s [] [] l out d h more = (
  s.records,
  ap (λ ms. ok tt (record s { log = ms })) (sym (append-nil s.log)),
  tt,
  λ q. refl,
  λ q _. refl,
)
report_loop-Reported flags (suc fuel) a s [] (r ∷ rs) l out d h more = elim h [ ]
report_loop-Reported flags (suc fuel) a s (p ∷ ps) [] l out d h more = elim h [ ]
report_loop-Reported flags (suc fuel) a s (p ∷ ps) (r ∷ rs) l out d h more =
    let (f, runs, here, held, same, kept) = report_record-run flags p s r h.0 in
    let s1 = record s { records = f; log = s.log ++ lines flags (r ∷ []) } in
    let (g, rest, held', same', kept') =
      report_loop-Reported flags fuel p s1 ps rs l.1 out.1 d.1 (held ps rs d.0 h.1) (omega arith) in
    (
      g,
      report_loop-step flags fuel p s f (s.log ++ lines flags (r ∷ [])) (first_or ps alloc_list)
            out.0 runs (next-Linked s.next s.prev p alloc_list ps l.1)
          ∙ rest
          ∙ ap (λ ms. ok tt (record s { records = g; log = ms }))
              (append_assoc s.log (lines flags (r ∷ [])) (lines flags rs)
                ∙ ap (λ ms. s.log ++ ms) (lines-cons flags r rs)),
      (kept' p d.0 ∙ here, held'),
      λ q. same q ∙ same' q,
      λ q away. kept' q away.1 ∙ kept q away.0,
    )
